-- ===== src/Server/BridgeCheckpoint/Laws.antt =====
-- What a call of `SignBridgeCheckpoint` answers, signs and keeps.
use bridge_remote_signer.Server.BridgeCheckpoint.{
  Surroundings, ServerState, sign_verified, CheckpointResult, CheckpointResponse, guard_and_sign,
  answer_refused, after_guard,
}
use bridge_remote_signer.Server.Crypto.{Crypto}
use bridge_remote_signer.Server.ReplayGuard.{
  JsonCodec, WriteStep, Disk, GuardError, CheckpointReplayGuard, advanced, check_and_advance,
  replay_rejected, persist_failed, record_signature, clone, cached_signature,
}
use bridge_remote_signer.Base.{
  Bool, Bytes, Option, Option-cases, arith, inl, inr, length, none, ok, refl, some, subst, sym,
  true, ℕ, ◌<◌, ◌∷◌, ◌≡◌, ◌≢◌, ◌≤◌, ◌⊎◌,
}

module _ (codec : JsonCodec) (fails : WriteStep → Bool) (disk : Disk) (g : CheckpointReplayGuard)
    (ts : ℕ) where
  -- A call of the guard that is granted moves the mark up and drops the memo, one that is refused
  -- for its timestamp changes nothing, and one that fails otherwise keeps the guard.
  abbrev pub GuardOutcome : (CheckpointReplayGuard × Disk) × Option GuardError → Type 0
  GuardOutcome r =
      ((r.1 ≡ none) × (r.0.0 ≡ advanced g ts) × (g.loaded ≡ true → g.high_water < ts))
      ⊎ ((r ≡ ((g, disk), some (replay_rejected ts g.high_water)))
          × (g.loaded ≡ true)
          × (ts ≤ g.high_water))
      ⊎ ((e : GuardError) × (r.1 ≡ some (persist_failed e)) × (r.0.0 ≡ g))

  check_and_advance_lem : GuardOutcome (check_and_advance codec fails disk g ts)
  unfolding check_and_advance
  check_and_advance_lem = ground arith

clone_cons : (b : Bytes) → length b ≢ 0 → clone b ≡ some b
clone_cons b h = ground arith

abbrev pub remembered : CheckpointReplayGuard → Bytes → Bytes → CheckpointReplayGuard
remembered g checkpoint sig = record g {
  signed_checkpoint = some checkpoint;
  signed_signature = some sig;
}

record_signature-remembered :
    (codec : JsonCodec) (fails : WriteStep → Bool) (disk : Disk) (g : CheckpointReplayGuard)
    (checkpoint sig : Bytes)
    → length checkpoint ≡ 32
    → length sig ≡ 64
    → (record_signature codec fails disk g g.high_water checkpoint sig).0.0
      ≡ remembered g checkpoint sig
unfolding record_signature
record_signature-remembered codec fails disk g checkpoint sig hc hs =
    ground (arith, clone_cons checkpoint, clone_cons sig)

module _ (c : Crypto) (codec : JsonCodec) (env : Surroundings) (st : ServerState)
    (checkpoint : Bytes) where
  -- The backend is asked once, for this checkpoint. The mark stays; the memo is set on success.
  abbrev pub SignedOutcome : ServerState × CheckpointResult → Type 0
  SignedOutcome r =
      (r.0.asked ≡ c.sha256 checkpoint ∷ st.asked)
      × (((r.0.guard ≡ st.guard) × ((res : CheckpointResponse) → r.1 ≢ ok res))
          ⊎ ((sig : Bytes) × (env.sign_raw (c.sha256 checkpoint) ≡ some sig)
              × (length sig ≡ 64)
              × (r.0.guard ≡ remembered st.guard checkpoint sig)
              × (r.1 ≡ ok (record { signature = sig; checkpoint = checkpoint }))))

  sign_verified_lem :
      length checkpoint ≡ 32
      → SignedOutcome (sign_verified c codec env st st.guard.high_water checkpoint)
  unfolding sign_verified
  sign_verified_lem hc = elim (Option-cases (env.sign_raw (c.sha256 checkpoint))) [
    | inl e ↦ rw (e, sign_verified) (refl, inl (refl, λ res h. cc))
    | inr (sig, e) ↦ ground (
      arith,
      record_signature-remembered codec env.record_fails st.disk st.guard checkpoint sig hc,
    )
  ]

module _ (c : Crypto) (codec : JsonCodec) (env : Surroundings) (st : ServerState) (ts : ℕ)
    (checkpoint : Bytes) where
  -- The guard refuses: nothing is asked and the guard stays. An answer is the memo's.
  abbrev pub RefusedOutcome : ServerState × CheckpointResult → Type 0
  RefusedOutcome r =
      (r.0.asked ≡ st.asked)
      × (r.0.guard ≡ st.guard)
      × ((res : CheckpointResponse)
          → r.1 ≡ ok res
          → (r.0 ≡ st)
            × (ts ≡ st.guard.high_water)
            × (st.guard.signed_checkpoint ≡ some checkpoint)
            × (st.guard.signed_signature ≡ some res.signature)
            × (res.checkpoint ≡ checkpoint))

  -- The guard grants: the backend is asked under the new mark.
  abbrev pub GrantedOutcome : ServerState × CheckpointResult → Type 0
  GrantedOutcome r =
      (st.guard.loaded ≡ true → st.guard.high_water < ts)
      × (disk' : Disk) × SignedOutcome c codec env
          (record st { guard = advanced st.guard ts; disk = disk' }) checkpoint r

  refused_lem :
      (d : Disk) (e : GuardError)
      → ((e ≡ replay_rejected ts st.guard.high_water) × (d ≡ st.disk))
        ⊎ ((e' : GuardError) × (e ≡ persist_failed e'))
      → RefusedOutcome (record st { disk = d }, answer_refused st.guard ts checkpoint e)
  unfolding answer_refused cached_signature
  refused_lem d (replay_rejected t m) h = (refl, refl, λ res answered. ground arith)
  refused_lem d _ h = (refl, refl, λ res answered. absurd (ground arith))

  after_guard_lem :
      (r : (CheckpointReplayGuard × Disk) × Option GuardError)
      → length checkpoint ≡ 32
      → GuardOutcome codec env.advance_fails st.disk st.guard ts r
      → RefusedOutcome (after_guard c codec env st ts checkpoint r)
        ⊎ GrantedOutcome (after_guard c codec env st ts checkpoint r)
  unfolding after_guard advanced
  after_guard_lem ((g, d), none) hc (inl (granted, moved, above)) = inr (
    above,
    d,
    subst
        (λ g.
          SignedOutcome c codec env (record st { guard = advanced st.guard ts; disk = d })
            checkpoint
            (sign_verified c codec env (record st { guard = g; disk = d }) ts checkpoint))
        (sym moved)
        (sign_verified_lem c codec env (record st { guard = advanced st.guard ts; disk = d })
          checkpoint hc),
  )
  after_guard_lem ((g, d), none) hc (inr (inl (e, _, _))) = absurd (ground arith)
  after_guard_lem ((g, d), none) hc (inr (inr (e', e, _))) = absurd (ground arith)
  after_guard_lem ((g, d), some x) hc (inl (e, _, _)) = absurd (ground arith)
  after_guard_lem ((g, d), some x) hc (inr (inl (e, _, _))) = inl (
      subst
        (λ g. RefusedOutcome (record st { guard = g; disk = d }, answer_refused g ts checkpoint x))
        (ground arith) (refused_lem d x (inl (ground arith, ground arith))))
  after_guard_lem ((g, d), some x) hc (inr (inr (e', e, kept))) = inl (
      subst
        (λ g. RefusedOutcome (record st { guard = g; disk = d }, answer_refused g ts checkpoint x))
        (sym kept) (refused_lem d x (inr (e', ground arith))))

  pub guard_and_sign_lem :
      length checkpoint ≡ 32
      → RefusedOutcome (guard_and_sign c codec env st ts checkpoint)
        ⊎ GrantedOutcome (guard_and_sign c codec env st ts checkpoint)
  unfolding guard_and_sign
  guard_and_sign_lem hc =
      after_guard_lem _ hc (check_and_advance_lem codec env.advance_fails st.disk st.guard ts)
