-- ===== src/Export.antt =====
-- cmd/bridge-signer/cmd_export.go: the export of the raw key to a file or to standard output.
use bridge_remote_signer.Base.{
  Bool, Bytes, Option, Result, [], err, if◌then◌else◌, lookup, none, ok, some, some_or, take, ℕ,
  ◌++◌, ◌==◌, ◌∷◌, bytes_eq, nat_eq,
}
use bridge_remote_signer.Text.{hex_encode}
use bridge_remote_signer.Signer.Types.{SignerError}
use bridge_remote_signer.Signer.Keyring.{Record, KeyCodec, extract_secp_priv_key_bytes}
use bridge_remote_signer.Signer.AtomicWrite.{WriteCall, WriteError, File, write_new_file_atomic}
pub mod Laws
mod Tests

pub data ExportError : Type 0 where
  key_lookup_failed : ExportError
  extraction_failed : SignerError → ExportError
  file_not_written : WriteError → ExportError
  stdout_is_terminal : ExportError
  stdout_failed : ExportError

-- What the command finds: whether standard output is a terminal, whether a write to it fails and
-- after how many bytes, and which calls on the file fail.
pub record Outlets : Type 0 where
  pub stdout_is_terminal : Bool
  pub stdout_cut : Option ℕ
  pub fails : WriteCall → Bool

-- What was printed and what stands at the output path.
pub record Outputs : Type 0 where
  pub stdout : Bytes
  pub at_path : Option File

-- `0o600`
abbrev pub owner_only : ℕ
owner_only = 384

unfoldable pub write_key_to_file :
    Outlets → Option File → Bytes → Outputs × Result ExportError (Unit {0})
write_key_to_file o at_path hex_encoded =
    let (after, outcome) =
      write_new_file_atomic o.fails at_path (hex_encoded ++ 10 ∷ []) owner_only in
    (
      record { stdout = []; at_path = after },
      elim outcome [ err e ↦ err (file_not_written e) | ok done ↦ ok tt ],
    )

unfoldable pub print_key : Outlets → Option File → Bytes → Outputs × Result ExportError (Unit {0})
print_key o at_path hex_encoded =
    if o.stdout_is_terminal
    then (record { stdout = []; at_path = at_path }, err stdout_is_terminal)
    else elim o.stdout_cut [
      | none ↦ (record { stdout = hex_encoded ++ 10 ∷ []; at_path = at_path }, ok tt)
      | some n ↦ (
        record { stdout = take n (hex_encoded ++ 10 ∷ []); at_path = at_path },
        err stdout_failed,
      )
    ]

-- `lookup` is the keyring's `Key(keyName)`.
unfoldable pub run_export :
    KeyCodec
    → Option (Option Record)
    → Outlets
    → Option File
    → Bytes
    → Outputs × Result ExportError (Unit {0})
run_export codec lookup o at_path output_path = elim (some_or key_lookup_failed lookup) [
  | err e ↦ (record { stdout = []; at_path = at_path }, err e)
  | ok entry ↦ elim (extract_secp_priv_key_bytes codec entry) [
    | err e ↦ (record { stdout = []; at_path = at_path }, err (extraction_failed e))
    | ok key_bytes ↦
        if output_path == []
        then print_key o at_path (hex_encode key_bytes)
        else write_key_to_file o at_path (hex_encode key_bytes)
  ]
]
