-- ===== src/CommandLine/Laws.antt =====
-- Which commands run at all, and with which flags.
use bridge_remote_signer.Base.{
  Any, Bytes, List, Option, Result-cases, [], arith, ascii, false, inl, inr, none, ok, refl, some,
  true, ◌↔◌, ◌∷◌, ◌≡◌, ◌≢◌, ◌⊎◌,
}
use bridge_remote_signer.CommandLine.{
  BackendFlag, Flags, backend_file, needs_keyring_dir, force_backend, check_dir, pre_run,
  require_dir,
}

-- `start` or `init-state`, or a command below one of them.
abbrev pub IsDaemonCommand : List Bytes → Type 0
IsDaemonCommand = Any (λ name. (name ≡ ascii "start") ⊎ (name ≡ ascii "init-state"))

-- The flags that a command's body sees.
abbrev pub with_file_backend : Option BackendFlag → Option BackendFlag
with_file_backend none = none
with_file_backend (some b) = some (record b { value = backend_file })

-- The user gave no other backend.
abbrev pub IsFile : Option BackendFlag → Type 0
IsFile none = Unit
IsFile (some b) = b.changed ≡ true → b.value ≡ backend_file

abbrev pub IsGiven : Option Bytes → Type 0
IsGiven none = ⊥
IsGiven (some dir) = dir ≢ []

needs_keyring_dir-IsDaemonCommand :
    (names : List Bytes) → (needs_keyring_dir names ≡ false) ↔ IsDaemonCommand names
unfolding needs_keyring_dir
needs_keyring_dir-IsDaemonCommand [] = ground arith
needs_keyring_dir-IsDaemonCommand (name ∷ names) =
    ground (arith, needs_keyring_dir-IsDaemonCommand names)

force_backend-IsFile :
    (b b' : Option BackendFlag)
    → (force_backend b ≡ ok b') ↔ (IsFile b × (b' ≡ with_file_backend b))
unfolding force_backend
force_backend-IsFile none b' = ground arith
force_backend-IsFile (some b) b' = ground arith

check_dir-IsGiven :
    (names : List Bytes) (dir : Option Bytes)
    → (check_dir names dir ≡ ok tt) ↔ (IsDaemonCommand names ⊎ IsGiven dir)
unfolding check_dir require_dir
check_dir-IsGiven names none = ground (arith, needs_keyring_dir-IsDaemonCommand names)
check_dir-IsGiven names (some dir) = ground (arith, needs_keyring_dir-IsDaemonCommand names)

-- A command's body runs exactly if the user named no keyring backend but "file", gave a keyring
-- directory unless the command is `start` or `init-state` or below one, and a client context can be
-- made. Then the body sees the flags with the backend set to "file".
pub pre_run-IsFile :
    {Ctx : Type 0}
    → (client_context : Flags → Option Ctx) (names : List Bytes) (f f' : Flags) (ctx : Ctx)
    → (pre_run client_context names f ≡ ok (f', ctx)) ↔ (
        IsFile f.keyring_backend
        × (IsDaemonCommand names ⊎ IsGiven f.keyring_dir)
        × (f' ≡ record f { keyring_backend = with_file_backend f.keyring_backend })
        × (client_context f' ≡ some ctx))
unfolding pre_run
pre_run-IsFile client_context names f f' ctx =
    let seen = record f { keyring_backend = with_file_backend f.keyring_backend } in
    (
      λ h. elim (Result-cases (force_backend f.keyring_backend)) [
        | inl (e, refused) ↦ absurd (ground arith)
        | inr (b, forced) ↦ elim (Result-cases (check_dir names f.keyring_dir)) [
          | inl (e, refused) ↦ absurd (ground arith)
          | inr (u, checked) ↦
              let (is_file, b_is) = (force_backend-IsFile f.keyring_backend b).0 forced in
              let given = (check_dir-IsGiven names f.keyring_dir).0 checked in
              (is_file, given, ground arith, ground arith)
        ]
      ],
      λ (is_file, given, same, made).
          let forced = (force_backend-IsFile f.keyring_backend _).1 (is_file, refl) in
          let checked = (check_dir-IsGiven names f.keyring_dir).1 given in ground arith,
    )
