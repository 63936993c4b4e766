-- ===== src/Server/BridgeCheckpoint/Concurrent/Alone.antt =====
-- A call that nothing interrupts does what `sign_bridge_checkpoint` says.
use bridge_remote_signer.Text.{u64_limit}
use bridge_remote_signer.Base.Family.{update, update_self}
use bridge_remote_signer.Base.{
  Bool-cases, Bytes, List, Option, Result-cases, [], ap, err, inl, inr, length, none, ok, refl,
  some, subst, sym, ℕ, ◌<◌, ◌==◌, ◌∙◌, ◌∷◌, ◌≡◌, bytes_eq, nat_eq,
}
use bridge_remote_signer.Text.Laws.{AreBytes}
use bridge_remote_signer.Server.Crypto.{Crypto}
use bridge_remote_signer.Server.BridgeCheckpoint.{
  Surroundings, ServerState, CheckpointResult, sign_verified, after_guard, answer_refused,
  sign_bridge_checkpoint, CheckpointRequest, guard_and_sign, verify_checkpoint,
}
use bridge_remote_signer.Server.ReplayGuard.{
  JsonCodec, CheckpointReplayGuard, cached_signature, Disk, replay_rejected, GuardError,
  check_and_advance,
}
use bridge_remote_signer.Server.BridgeCheckpoint.Concurrent.{
  idle, verified, refused, granted, signed, Asked, Answer, System, after_advance, do_advance,
  do_lookup, do_sign, do_record, Step, receive, advance, look_up, sign, memoize,
}

abbrev pub digests : List Asked → List Bytes
digests [] = []
digests (a ∷ log) = a.digest ∷ digests log

abbrev pub answers_after : CheckpointResult → ℕ → List Answer → List Answer
answers_after (ok res) ts answers =
    record { timestamp = ts; checkpoint = res.checkpoint; signature = res.signature } ∷ answers
answers_after (err e) ts answers = answers

abbrev pub state_of : System → ServerState
state_of s = record { guard = s.world.guard; disk = s.world.disk; asked = digests s.asked }

-- Steps, one after the other.
pub data Steps (c : Crypto) (codec : JsonCodec) (self_evm_addr path : Bytes) (s : System)
    : System → Type 0 where
  done : Steps c codec self_evm_addr path s s
  more :
      {t u : System}
      → Steps c codec self_evm_addr path s t
      → Step c codec self_evm_addr path t u
      → Steps c codec self_evm_addr path s u

module _ (c : Crypto) (codec : JsonCodec) (self_evm_addr path : Bytes) where
  -- Steps that lead to this state and answer, with call `i` at its end.
  abbrev pub Ends : System → ℕ → ℕ → ServerState × CheckpointResult → Type 0
  Ends s i ts r =
      (t : System) × Steps c codec self_evm_addr path s t
      × (state_of t ≡ r.0)
      × (t.answers ≡ answers_after r.1 ts s.answers)
      × (t.phase i ≡ idle)

  signed_alone :
      (env : Surroundings) (s₀ s : System) (i ts : ℕ) (checkpoint : Bytes) (reply : Option Bytes)
      → Steps c codec self_evm_addr path s₀ s
      → s₀.answers ≡ s.answers
      → s.phase i ≡ granted ts checkpoint
      → ((sig : Bytes) → reply ≡ some sig → AreBytes sig)
      → env.sign_raw (c.sha256 checkpoint) ≡ reply
      → Ends s₀ i ts (sign_verified c codec env (state_of s) ts checkpoint)
  unfolding sign_verified
  signed_alone env s₀ s i ts checkpoint none before same at bytes e = (
    do_sign c s i none ts checkpoint,
    more before (sign i none at bytes),
    rw (e, sign_verified) refl,
    rw (e, sign_verified) (sym same),
    update_self s.phase i idle,
  )
  signed_alone env s₀ s i ts checkpoint (some sig) before same at bytes e =
      let t = do_sign c s i (some sig) ts checkpoint in
      let asked = more before (sign i (some sig) at bytes) in
      elim (Bool-cases (length sig == 64)) [
        | inl sized ↦
            let here : t.phase i ≡ signed ts checkpoint sig =
              update_self s.phase i _ ∙ rw sized refl in
            (
              do_record codec t i env.record_fails ts checkpoint sig,
              more asked (memoize i env.record_fails here),
              rw (e, sized, sign_verified) refl,
              rw (e, sized, sign_verified)
                  (ap
                    (λ (l : List Answer).
                      record { timestamp = ts; checkpoint = checkpoint; signature = sig } ∷ l)
                    (sym same)),
              update_self t.phase i idle,
            )
        | inr short ↦ (
          t,
          asked,
          rw (e, short, sign_verified) refl,
          rw (e, short, sign_verified) (sym same),
          update_self s.phase i _ ∙ rw short refl,
        )
      ]

  looked_up_alone :
      (s₀ s : System) (st : ServerState) (i ts t mark : ℕ) (checkpoint : Bytes) (o : Option Bytes)
      → Steps c codec self_evm_addr path s₀ s
      → s₀.answers ≡ s.answers
      → s.phase i ≡ refused ts checkpoint
      → state_of s ≡ st
      → cached_signature s.world.guard ts checkpoint ≡ o
      → Ends s₀ i ts (st, answer_refused s.world.guard ts checkpoint (replay_rejected t mark))
  unfolding answer_refused
  looked_up_alone s₀ s st i ts t mark checkpoint none before same at agrees e = (
    do_lookup s i ts checkpoint,
    more before (look_up i at),
    agrees,
    rw (e, answer_refused) (sym same),
    update_self s.phase i idle,
  )
  looked_up_alone s₀ s st i ts t mark checkpoint (some sig) before same at agrees e = (
    do_lookup s i ts checkpoint,
    more before (look_up i at),
    agrees,
    rw (e, answer_refused)
        (ap
          (λ (l : List Answer).
            record { timestamp = ts; checkpoint = checkpoint; signature = sig } ∷ l)
          (sym same)),
    update_self s.phase i idle,
  )

  guarded_alone :
      (env : Surroundings) (s₀ s : System) (st : ServerState) (i ts : ℕ) (checkpoint : Bytes)
      (r : (CheckpointReplayGuard × Disk) × Option GuardError)
      → Steps c codec self_evm_addr path s₀ s
      → s₀.answers ≡ s.answers
      → s.phase i ≡ after_advance r.1 ts checkpoint
      → state_of s ≡ record st { guard = r.0.0; disk = r.0.1 }
      → ((digest sig : Bytes) → env.sign_raw digest ≡ some sig → AreBytes sig)
      → Ends s₀ i ts (after_guard c codec env st ts checkpoint r)
  unfolding after_guard answer_refused
  guarded_alone env s₀ s st i ts checkpoint ((g, d), none) before same at agrees bytes =
      subst (λ x. Ends s₀ i ts (sign_verified c codec env x ts checkpoint)) agrees
        (signed_alone env s₀ s i ts checkpoint (env.sign_raw (c.sha256 checkpoint)) before same at
          (bytes (c.sha256 checkpoint)) refl)
  guarded_alone env s₀ s st i ts checkpoint ((g, d), some (replay_rejected t mark)) before same at
        agrees bytes =
      subst
        (λ g'. Ends s₀ i ts (
          record st { guard = g; disk = d },
          answer_refused g' ts checkpoint (replay_rejected t mark),
        ))
        (ap (λ (x : ServerState). x.guard) agrees)
        (looked_up_alone s₀ s _ i ts t mark checkpoint _ before same at agrees refl)
  guarded_alone env s₀ s st i ts checkpoint ((g, d), some e) before same at agrees bytes =
      (s, before, agrees, sym same, at)

  -- Values as Go has them: a timestamp of 64 bits, and slices of bytes.
  abbrev pub IsProper : Surroundings → CheckpointRequest → Type 0
  IsProper env req =
      (req.validator_timestamp < u64_limit)
      × AreBytes req.expected_checkpoint
      × ((digest sig : Bytes) → env.sign_raw digest ≡ some sig → AreBytes sig)

  -- A call that finds no other in its way is one of the schedules: from any state in which call `i`
  -- is nowhere, steps lead to a state with the guard, the file and the backend's log that
  -- `sign_bridge_checkpoint` gives, to the same answer, and call `i` is at its end.
  pub sign_bridge_checkpoint-Steps :
      (env : Surroundings) (s : System) (i : ℕ) (req : CheckpointRequest)
      → s.phase i ≡ idle
      → IsProper env req
      → Ends s i req.validator_timestamp
          (sign_bridge_checkpoint c codec self_evm_addr env (state_of s) req)
  unfolding sign_bridge_checkpoint guard_and_sign
  sign_bridge_checkpoint-Steps env s i req at (small, bytes, sigs) =
      elim (Result-cases (verify_checkpoint c self_evm_addr req)) [
        | inl (e, bad) ↦ (
          s,
          done,
          rw (bad, sign_bridge_checkpoint) refl,
          rw (bad, sign_bridge_checkpoint) refl,
          at,
        )
        | inr (checkpoint, passed) ↦
            let ts = req.validator_timestamp in
            let t = record s { phase = update s.phase i (verified ts checkpoint) } in
            let there : t.phase i ≡ verified ts checkpoint = update_self s.phase i _ in
            let u = do_advance codec t i env.advance_fails ts checkpoint in
            rw (passed, sign_bridge_checkpoint)
              (guarded_alone env s u (state_of s) i ts checkpoint
                (check_and_advance codec env.advance_fails s.world.disk s.world.guard ts)
                (more (more done (receive i req at small bytes passed))
                  (advance i env.advance_fails there))
                refl (update_self t.phase i _) refl sigs)
      ]
