-- ===== src/CommandLine.antt =====
-- cmd/bridge-signer/cmd_root.go: what runs before every command, and the subcommands of `keys`.
-- Cobra resolves the command and parses its flags; the Cosmos SDK's `keys` tree and what it makes
-- of the flags are parameters.
use bridge_remote_signer.Base.{
  Bool, Bytes, List, Option, Result, [], ascii, err, false, if◌then◌else◌, none, not, ok, some,
  true, ◌&&◌, ◌++◌, ◌==◌, ◌||◌, ◌∷◌, bytes_eq, nat_eq,
}
pub mod Laws
pub mod InitState
mod Tests

-- `--keyring-backend`: its value, and whether the user gave it.
pub record BackendFlag : Type 0 where
  pub value : Bytes
  pub changed : Bool

-- The two keyring flags of a command, `none` where the command has no such flag.
pub record Flags : Type 0 where
  pub keyring_backend : Option BackendFlag
  pub keyring_dir : Option Bytes

pub data RootError : Type 0 where
  backend_not_supported : Bytes → RootError
  no_keyring_dir_flag keyring_dir_required client_context_failed : RootError

abbrev pub backend_file : Bytes
backend_file = ascii "file"

-- The names are the command's own one, its parent's, and so on to the root's.
pub needs_keyring_dir : List Bytes → Bool
needs_keyring_dir [] = true
needs_keyring_dir (name ∷ parents) =
    let above = needs_keyring_dir parents in
    if name == ascii "start" || name == ascii "init-state" then false else above

pub force_backend : Option BackendFlag → Result RootError (Option BackendFlag)
force_backend none = ok none
force_backend (some b) =
    if b.changed && not (b.value == backend_file)
    then err (backend_not_supported b.value)
    else ok (some (record b { value = backend_file }))

pub require_dir : Option Bytes → Result RootError (Unit {0})
require_dir none = err no_keyring_dir_flag
require_dir (some dir) = if dir == [] then err keyring_dir_required else ok tt

pub check_dir : List Bytes → Option Bytes → Result RootError (Unit {0})
check_dir names dir = if needs_keyring_dir names then require_dir dir else ok tt

-- `client_context` makes the context that the command's body reads from the flags.
unfoldable pub pre_run :
    {Ctx : Type 0} → (Flags → Option Ctx) → List Bytes → Flags → Result RootError (Flags × Ctx)
pre_run client_context names f = elim (force_backend f.keyring_backend) [
  | err e ↦ err e
  | ok backend ↦
      let f' = record f { keyring_backend = backend } in
      elim (check_dir names f.keyring_dir) [
        | err e ↦ err e
        | ok u ↦ elim (client_context f') [
          | none ↦ err client_context_failed
          | some ctx ↦ ok (f', ctx)
        ]
      ]
]

unfoldable pub banned : Bytes → Bool
banned name = name == ascii "export" || name == ascii "import" || name == ascii "migrate"

pub keep_allowed : {Command : Type 0} → (Command → Bytes) → List Command → List Command
keep_allowed name_of [] = []
keep_allowed name_of (command ∷ commands) =
    let kept = keep_allowed name_of commands in
    if banned (name_of command) then kept else command ∷ kept

-- The subcommands of `keys`: the SDK's without the banned ones, and the tool's own export.
unfoldable pub keys_commands :
    {Command : Type 0} → (Command → Bytes) → Command → List Command → List Command
keys_commands name_of export sdk = keep_allowed name_of sdk ++ export ∷ []
