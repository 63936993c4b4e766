-- ===== src/Server/BridgeCheckpoint/Repeats.antt =====
-- What a repeat of a request is answered, after a signature and after a failure of the backend.
use bridge_remote_signer.Server.BridgeCheckpoint.Calls.{verify_checkpoint_ok, checkpoint-length}
use bridge_remote_signer.Server.BridgeCheckpoint.Laws.{
  RefusedOutcome, GrantedOutcome, guard_and_sign_lem,
}
use bridge_remote_signer.Server.BridgeCheckpoint.{
  Surroundings, ServerState, guard_and_sign, answer_refused, after_guard, replay_guard,
  sign_bridge_checkpoint, CheckpointResult, CheckpointRequest, verify_checkpoint,
  CheckpointResponse, CheckpointError,
}
use bridge_remote_signer.Server.ReplayGuard.{
  JsonCodec, check_and_advance, cached_signature, replay_rejected, advanced, CheckpointReplayGuard,
}
use bridge_remote_signer.Server.Crypto.{Crypto}
use bridge_remote_signer.Base.{
  Bytes, Result-cases, ap, arith, err, inl, inr, none, ok, refl, some, subst, sym, true, ◌∙◌, ◌≡◌,
  ◌≢◌, ◌⊎◌,
}

module _ (c : Crypto) (codec : JsonCodec) (env : Surroundings) (st : ServerState)
    (checkpoint : Bytes) where
  check_and_advance-at_mark :
      st.guard.loaded ≡ true
      → check_and_advance codec env.advance_fails st.disk st.guard st.guard.high_water
        ≡ ((st.guard, st.disk), some (replay_rejected st.guard.high_water st.guard.high_water))
  unfolding check_and_advance
  check_and_advance-at_mark ready = ground arith

  -- At the mark the memo decides.
  guard_and_sign-at_mark :
      st.guard.loaded ≡ true
      → guard_and_sign c codec env st st.guard.high_water checkpoint ≡ (
        st,
        answer_refused st.guard st.guard.high_water checkpoint
            (replay_rejected st.guard.high_water st.guard.high_water),
      )
  unfolding guard_and_sign after_guard
  guard_and_sign-at_mark ready =
      ap (after_guard c codec env st st.guard.high_water checkpoint)
        (check_and_advance-at_mark ready)

  from_memo :
      (sig : Bytes)
      → st.guard.loaded ≡ true
      → st.guard.signed_checkpoint ≡ some checkpoint
      → st.guard.signed_signature ≡ some sig
      → guard_and_sign c codec env st st.guard.high_water checkpoint
        ≡ (st, ok (record { signature = sig; checkpoint = checkpoint }))
  unfolding answer_refused cached_signature
  from_memo sig ready ck s = guard_and_sign-at_mark ready ∙ ground arith

  without_memo :
      st.guard.loaded ≡ true
      → st.guard.signed_checkpoint ≡ none
      → guard_and_sign c codec env st st.guard.high_water checkpoint
        ≡ (st, err (replay_guard (replay_rejected st.guard.high_water st.guard.high_water)))
  unfolding answer_refused cached_signature
  without_memo ready ck = guard_and_sign-at_mark ready ∙ ground arith

module _ (c : Crypto) (codec : JsonCodec) (self_evm_addr : Bytes) where
  -- A state whose mark is the request's timestamp answers by its memo, or by an error.
  at_mark_of :
      (env : Surroundings) (st : ServerState) (req : CheckpointRequest) (checkpoint : Bytes)
      (out : CheckpointResult)
      → verify_checkpoint c self_evm_addr req ≡ ok checkpoint
      → st.guard.high_water ≡ req.validator_timestamp
      → guard_and_sign c codec env st st.guard.high_water checkpoint ≡ (st, out)
      → sign_bridge_checkpoint c codec self_evm_addr env st req ≡ (st, out)
  unfolding sign_bridge_checkpoint
  at_mark_of env st req checkpoint out passed at_mark e =
      rw (passed, sign_bridge_checkpoint)
        (subst (λ t. guard_and_sign c codec env st t checkpoint ≡ (st, out)) at_mark e)

  abbrev RepeatedBy :
      ServerState × CheckpointResult → CheckpointRequest → CheckpointResponse → Type 0
  RepeatedBy r req res =
      (env' : Surroundings)
      → sign_bridge_checkpoint c codec self_evm_addr env' r.0 req ≡ (r.0, ok res)

  repeat_of :
      (env : Surroundings) (st : ServerState) (req : CheckpointRequest) (checkpoint : Bytes)
      (r : ServerState × CheckpointResult) (res : CheckpointResponse)
      → st.guard.loaded ≡ true
      → verify_checkpoint c self_evm_addr req ≡ ok checkpoint
      → RefusedOutcome c codec env st req.validator_timestamp checkpoint r
        ⊎ GrantedOutcome c codec env st req.validator_timestamp checkpoint r
      → r.1 ≡ ok res
      → RepeatedBy r req res
  unfolding advanced
  repeat_of env st req checkpoint r res ready passed (inl (_, _, memo)) answered env' =
      let (same, at_mark, ck, sig, e) = memo res answered in
      rw same (
        at_mark_of env' st req checkpoint (ok res) passed (sym at_mark)
          (from_memo c codec env' st checkpoint res.signature ready ck sig ∙ cc e))
  repeat_of env st req checkpoint r res ready passed (inr (_, _, (_, inl (_, failed)))) answered
        env' =
      absurd (failed res answered)
  repeat_of env st req checkpoint r res ready passed
        (inr (_, _, (asked, inr (sig, made, whole, kept, e)))) answered env' =
      let same : res ≡ record { signature = sig; checkpoint = checkpoint } = ground arith in
      let at_mark = ap (λ (g : CheckpointReplayGuard). g.high_water) kept in
      let ck = ap (λ (g : CheckpointReplayGuard). g.signed_checkpoint) kept in
      let s = ap (λ (g : CheckpointReplayGuard). g.signed_signature) kept in
      let l = ap (λ (g : CheckpointReplayGuard). g.loaded) kept ∙ ready in
      at_mark_of env' r.0 req checkpoint (ok res) passed at_mark
        (from_memo c codec env' r.0 checkpoint sig l ck s ∙ cc)

  -- A request that was answered is answered again at once with the same signature. Nothing changes
  -- and the backend is not asked, whatever the backend and the disk do then.
  pub sign_bridge_checkpoint_repeat :
      (env env' : Surroundings) (st : ServerState) (req : CheckpointRequest)
      (res : CheckpointResponse)
      → st.guard.loaded ≡ true
      → (sign_bridge_checkpoint c codec self_evm_addr env st req).1 ≡ ok res
      → let st' = (sign_bridge_checkpoint c codec self_evm_addr env st req).0 in
        sign_bridge_checkpoint c codec self_evm_addr env' st' req ≡ (st', ok res)
  unfolding sign_bridge_checkpoint
  sign_bridge_checkpoint_repeat env env' st req res ready answered =
      elim (Result-cases (verify_checkpoint c self_evm_addr req)) [
        | inl (e, refused) ↦ absurd (ground arith)
        | inr (checkpoint, passed) ↦
            let v = verify_checkpoint_ok c codec self_evm_addr req checkpoint passed in
            let run : sign_bridge_checkpoint c codec self_evm_addr env st req
                ≡ guard_and_sign c codec env st req.validator_timestamp checkpoint =
              rw (passed, sign_bridge_checkpoint) refl in
            subst (λ (r : ServerState × CheckpointResult). r.1 ≡ ok res → RepeatedBy r req res)
              (sym run)
              (repeat_of env st req checkpoint _ res ready passed (
                guard_and_sign_lem c codec env st req.validator_timestamp checkpoint
                  (checkpoint-length c codec self_evm_addr req checkpoint v)))
              answered env'
      ]

  abbrev BurnedBy : ServerState × CheckpointResult → CheckpointRequest → Type 0
  BurnedBy r req =
      (env' : Surroundings)
      → sign_bridge_checkpoint c codec self_evm_addr env' r.0 req ≡ (
        r.0,
        err (replay_guard (replay_rejected req.validator_timestamp req.validator_timestamp)),
      )

  burned_of :
      (env : Surroundings) (st : ServerState) (req : CheckpointRequest) (checkpoint : Bytes)
      (r : ServerState × CheckpointResult) (e : CheckpointError)
      → st.guard.loaded ≡ true
      → verify_checkpoint c self_evm_addr req ≡ ok checkpoint
      → RefusedOutcome c codec env st req.validator_timestamp checkpoint r
        ⊎ GrantedOutcome c codec env st req.validator_timestamp checkpoint r
      → r.1 ≡ err e
      → r.0.asked ≢ st.asked
      → BurnedBy r req
  unfolding advanced
  burned_of env st req checkpoint r e ready passed (inl (unasked, _, _)) failed asked env' =
      absurd (asked unasked)
  burned_of env st req checkpoint r e ready passed (inr (_, _, (_, inr (sig, _, _, _, answered))))
        failed asked env' =
      absurd (ground arith)
  burned_of env st req checkpoint r e ready passed (inr (_, _, (_, inl (kept, _)))) failed asked
        env' =
      let at_mark = ap (λ (g : CheckpointReplayGuard). g.high_water) kept in
      let ck = ap (λ (g : CheckpointReplayGuard). g.signed_checkpoint) kept in
      let l = ap (λ (g : CheckpointReplayGuard). g.loaded) kept ∙ ready in
      at_mark_of env' r.0 req checkpoint _ passed at_mark
        (without_memo c codec env' r.0 checkpoint l ck ∙ cc at_mark)

  -- A call that asked the backend and ended in an error has spent its timestamp: every repeat of
  -- the request is refused by the guard, whatever the backend could then answer.
  pub sign_bridge_checkpoint_burned :
      (env env' : Surroundings) (st : ServerState) (req : CheckpointRequest) (e : CheckpointError)
      → st.guard.loaded ≡ true
      → (sign_bridge_checkpoint c codec self_evm_addr env st req).1 ≡ err e
      → let st' = (sign_bridge_checkpoint c codec self_evm_addr env st req).0 in
        st'.asked ≢ st.asked
        → sign_bridge_checkpoint c codec self_evm_addr env' st' req ≡ (
          st',
          err (replay_guard (replay_rejected req.validator_timestamp req.validator_timestamp)),
        )
  unfolding sign_bridge_checkpoint
  sign_bridge_checkpoint_burned env env' st req e ready failed asked =
      elim (Result-cases (verify_checkpoint c self_evm_addr req)) [
        | inl (e', refused) ↦
            let run : sign_bridge_checkpoint c codec self_evm_addr env st req ≡ (st, err e') =
              rw (refused, sign_bridge_checkpoint) refl in
            absurd (asked (ap (λ (r : ServerState × CheckpointResult). r.0.asked) run))
        | inr (checkpoint, passed) ↦
            let v = verify_checkpoint_ok c codec self_evm_addr req checkpoint passed in
            let run : sign_bridge_checkpoint c codec self_evm_addr env st req
                ≡ guard_and_sign c codec env st req.validator_timestamp checkpoint =
              rw (passed, sign_bridge_checkpoint) refl in
            subst
              (λ (r : ServerState × CheckpointResult).
                r.1 ≡ err e → r.0.asked ≢ st.asked → BurnedBy r req)
              (sym run)
              (burned_of env st req checkpoint _ e ready passed (
                guard_and_sign_lem c codec env st req.validator_timestamp checkpoint
                  (checkpoint-length c codec self_evm_addr req checkpoint v)))
              failed asked env'
      ]
