-- ===== src/CommandLine/Tests.antt =====
-- The flags of a `keys` command.
use bridge_remote_signer.Base.{
  Bytes, List, Option, [], ascii, bytes_dec, false, ok, refl, some, ◌↔◌, ◌∷◌, ◌≡◌, ◌⊎◌,
}
use bridge_remote_signer.CommandLine.{
  Flags, pre_run, force_backend, check_dir, require_dir, needs_keyring_dir, keys_commands,
  keep_allowed, banned,
}
use bridge_remote_signer.CommandLine.Laws.{
  IsFile, IsGiven, IsDaemonCommand, with_file_backend, pre_run-IsFile,
}

abbrev given : Flags
given = record {
  keyring_backend = some (record { value = ascii "os"; changed = false });
  keyring_dir = some (ascii "/keys");
}

abbrev seen : Flags
seen = record {
  keyring_backend = some (record { value = ascii "file"; changed = false });
  keyring_dir = some (ascii "/keys");
}

abbrev names : List Bytes
names = ascii "list" ∷ ascii "keys" ∷ ascii "bridge-signer" ∷ []

abbrev dir_of : Flags → Option Bytes
dir_of f = f.keyring_dir

kept :
    keys_commands (λ (n : Bytes). n) (ascii "export") (ascii "add" ∷ ascii "migrate" ∷ [])
    ≡ ascii "add" ∷ ascii "export" ∷ []
unfolding keys_commands keep_allowed banned bytes_dec
kept = refl

pre_run-IsFile_example : (pre_run dir_of names given ≡ ok (seen, ascii "/keys")) ↔ (
    IsFile given.keyring_backend
    × (IsDaemonCommand names ⊎ IsGiven given.keyring_dir)
    × (seen ≡ record given { keyring_backend = with_file_backend given.keyring_backend })
    × (dir_of seen ≡ some (ascii "/keys")))
pre_run-IsFile_example = pre_run-IsFile dir_of names given seen (ascii "/keys")

runs : pre_run dir_of names given ≡ ok (seen, ascii "/keys")
unfolding pre_run force_backend check_dir require_dir needs_keyring_dir bytes_dec
runs = refl
