-- ===== src/Server/ReplayGuard/Atomic.antt =====
-- A write fails before the rename and leaves the file, or after it and has replaced the file.
use bridge_remote_signer.Server.ReplayGuard.{
  WriteStep, sync_dir, Disk, write_bytes_atomic, JsonCodec, CheckpointReplayGuard, ReadOutcome,
  not_exist, contents, new_checkpoint_replay_guard, persist_locked, saved_state,
}
use bridge_remote_signer.Server.ReplayGuard.Laws.{IsJson, IsGuard, load-persist}
use bridge_remote_signer.Base.{
  Bool, Bytes, Option-cases, arith, inl, inr, none, ok, refl, some, ◌≡◌, ◌≢◌, ◌⊎◌,
}

-- Whatever calls fail, the file holds the old bytes or all of the new ones: the new ones exactly
-- if no call failed or only the last, the sync of the directory.
pub write_bytes_atomic_lem :
    (fails : WriteStep → Bool) (disk : Disk) (b : Bytes)
    → let (disk', failure) = write_bytes_atomic fails disk b in
      ((disk' ≡ some b) × ((failure ≡ none) ⊎ (failure ≡ some sync_dir)))
      ⊎ ((disk' ≡ disk) × (failure ≢ none) × (failure ≢ some sync_dir))
unfolding write_bytes_atomic
write_bytes_atomic_lem fails disk b = ground arith

-- What a start reads.
abbrev pub read : Disk → ReadOutcome
read none = not_exist
read (some b) = contents b

module _ (codec : JsonCodec) (json : IsJson codec) (path : Bytes) where
  -- A later start loads this guard.
  abbrev pub Holds : Disk → CheckpointReplayGuard → Type 0
  Holds disk g = new_checkpoint_replay_guard codec path (read disk) ≡ ok g

  pub persist_locked-Holds :
      (fails : WriteStep → Bool) (disk : Disk) (g : CheckpointReplayGuard)
      → IsGuard path g
      → let (disk', e) = persist_locked codec fails disk g in
        Holds disk' g ⊎ ((disk' ≡ disk) × (e ≢ none))
  unfolding persist_locked
  persist_locked-Holds fails disk g v =
      elim (Option-cases
        (codec.marshal (saved_state g.high_water g.signed_checkpoint g.signed_signature))) [
          | inl e ↦ rw (e, persist_locked) (inr (refl, λ h. cc))
          | inr (blob, e) ↦
              rw (e, persist_locked)
                (elim (write_bytes_atomic_lem fails disk blob) [
                  | inl (written, _) ↦ inl (rw written (load-persist codec json path g blob v e))
                  | inr (kept, failed, _) ↦ inr (kept, λ none_left. ground arith)
                ])
        ]
