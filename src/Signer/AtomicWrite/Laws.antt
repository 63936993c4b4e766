-- ===== src/Signer/AtomicWrite/Laws.antt =====
-- What stands at the path after a write, call by call.
use bridge_remote_signer.Base.{
  Bool, Bytes, Option, Option-cases, Result, arith, ensure, err, false, inl, inr, ltb, none, not,
  ok, refl, some, true, ℕ, ◌%◌, ◌<◌, ◌==◌, ◌>>◌, ◌≡◌, ◌⊎◌, bytes_eq, nat_eq,
}
use bridge_remote_signer.Signer.AtomicWrite.{
  WriteCall, WriteError, File, refusing_to_overwrite, failed, open_dir, sync_dir, close_dir, link,
  perm_bits, perm_shared, validate_perm, attempt, write_temp, sync_parent, link_new,
  write_new_file_atomic,
}

-- An error of the sync of the directory, after the file was linked.
abbrev pub IsSyncError : WriteError → Type 0
IsSyncError e = (e ≡ failed open_dir) ⊎ (e ≡ failed sync_dir) ⊎ (e ≡ failed close_dir)

-- A step that ends well, or in an error of the given kind.
abbrev FailsIn : (WriteError → Type 0) → Result WriteError (Unit {0}) → Type 0
FailsIn P r = (r ≡ ok tt) ⊎ ((e : WriteError) × (r ≡ err e) × P e)

chain-FailsIn :
    (P : WriteError → Type 0) (first rest : Result WriteError (Unit {0}))
    → FailsIn P first
    → FailsIn P rest
    → FailsIn P (first >> rest)
chain-FailsIn P first rest (inl e) h = rw e h
chain-FailsIn P first rest (inr (x, e, kind)) h = inr (x, rw e refl, kind)

ensure-FailsIn :
    (P : WriteError → Type 0) (test : Bool) (e : WriteError) → P e → FailsIn P (ensure test e)
ensure-FailsIn P true e kind = inl refl
ensure-FailsIn P false e kind = inr (e, refl, kind)

attempt-FailsIn :
    (P : WriteError → Type 0) (fails : WriteCall → Bool) (call : WriteCall)
    → P (failed call)
    → FailsIn P (attempt fails call)
unfolding attempt
attempt-FailsIn P fails call kind = ensure-FailsIn P (not (fails call)) (failed call) kind

sync_parent_lem : (fails : WriteCall → Bool) → FailsIn IsSyncError (sync_parent fails)
unfolding sync_parent
sync_parent_lem fails =
    let P = IsSyncError in
    chain-FailsIn P _ _ (attempt-FailsIn P fails open_dir (inl refl)) (
      chain-FailsIn P _ _ (attempt-FailsIn P fails sync_dir (inr (inl refl)))
        (attempt-FailsIn P fails close_dir (inr (inr refl))))

NotSync : WriteError → Type 0
NotSync e = ¬ IsSyncError e

-- The temporary file is made, filled and given its permissions, or one of the calls has failed.
abbrev TempOutcome : Bytes → ℕ → Result WriteError File → Type 0
TempOutcome contents perm r =
    (r ≡ ok (record { contents = contents; perm = perm }))
    ⊎ ((e : WriteError) × (r ≡ err e) × NotSync e)

write_temp_lem :
    (fails : WriteCall → Bool) (contents : Bytes) (perm : ℕ)
    → TempOutcome contents perm (write_temp fails contents perm)
unfolding write_temp NotSync attempt
write_temp_lem fails contents perm = ground arith

validate_perm_lem : (perm : ℕ) → FailsIn NotSync (validate_perm perm)
unfolding validate_perm NotSync
validate_perm_lem perm =
    let P = NotSync in
    chain-FailsIn P _ _ (ensure-FailsIn P (ltb perm 512) perm_bits (λ h. ground arith))
      (ensure-FailsIn P (perm % 64 == 0) perm_shared (λ h. ground arith))

validate_perm_sound : (perm : ℕ) → validate_perm perm ≡ ok tt → (perm < 512) × (perm % 64 ≡ 0)
unfolding validate_perm
validate_perm_sound perm h = (ground arith, ground arith)

abbrev pub WriteOutcome : (WriteCall → Bool) → Option File → Bytes → ℕ → Type 0
WriteOutcome fails at_path contents perm =
    let (after, outcome) = write_new_file_atomic fails at_path contents perm in
    ((after ≡ at_path) × (e : WriteError) × (outcome ≡ err e) × ¬ IsSyncError e)
    ⊎ ((at_path ≡ none)
        × (after ≡ some (record { contents = contents; perm = perm }))
        × (perm < 512)
        × (perm % 64 ≡ 0)
        × ((outcome ≡ ok tt) ⊎ ((e : WriteError) × (outcome ≡ err e) × IsSyncError e)))

-- Whatever calls fail: either the path is as it was and an error is returned, other than of the
-- directory's sync; or there was no file, the new one stands there with all its bytes, readable by
-- its owner only, and the outcome is no error or one of the directory's sync.
pub write_new_file_atomic_lem :
    (fails : WriteCall → Bool) (at_path : Option File) (contents : Bytes) (perm : ℕ)
    → WriteOutcome fails at_path contents perm
unfolding write_new_file_atomic NotSync link_new
write_new_file_atomic_lem fails at_path contents perm = elim (validate_perm_lem perm) [
  | inr (x, e, kind) ↦
      inl (rw (write_new_file_atomic, e) refl, x, rw (write_new_file_atomic, e) refl, kind)
  | inl e ↦ elim (write_temp_lem fails contents perm) [
    | inr (x, f, kind) ↦
        inl (rw (write_new_file_atomic, e, f) refl, x, rw (write_new_file_atomic, e, f) refl, kind)
    | inl f ↦ elim (Option-cases at_path) [
      | inr (there, g) ↦ inl (
        rw (write_new_file_atomic, e, f, g) g,
        refusing_to_overwrite,
        rw (write_new_file_atomic, e, f, g) refl,
        λ h. ground arith,
      )
      | inl g ↦ elim (attempt-FailsIn (λ x. x ≡ failed link) fails link refl) [
        | inr (x, k, kind) ↦ inl (
          rw (write_new_file_atomic, e, f, g, k) g,
          x,
          rw (write_new_file_atomic, e, f, g, k) refl,
          λ h. ground arith,
        )
        | inl k ↦
            let (low, owner) = validate_perm_sound perm e in
            inr (
              g,
              rw (write_new_file_atomic, e, f, g, k) refl,
              low,
              owner,
              rw (write_new_file_atomic, e, f, g, k) (sync_parent_lem fails),
            )
      ]
    ]
  ]
]
