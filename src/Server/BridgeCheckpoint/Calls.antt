-- ===== src/Server/BridgeCheckpoint/Calls.antt =====
-- What one call of `SignBridgeCheckpoint` signs, and what a later one answers.
use bridge_remote_signer.Server.BridgeCheckpoint.Laws.{
  GrantedOutcome, guard_and_sign_lem, RefusedOutcome,
}
use bridge_remote_signer.Server.BridgeCheckpoint.Verify.{IsGenuine, verify_checkpoint-IsGenuine}
use bridge_remote_signer.Server.BridgeCheckpoint.{
  CheckpointRequest, Surroundings, sign_bridge_checkpoint, ServerState, CheckpointResult,
  verify_checkpoint, CheckpointResponse, guard_and_sign,
}
use bridge_remote_signer.Server.ReplayGuard.{JsonCodec, advanced, CheckpointReplayGuard}
use bridge_remote_signer.Server.Crypto.{Crypto}
use bridge_remote_signer.Base.{
  Bytes, Result-cases, ap, arith, inl, inr, length, ok, refl, some, subst, sym, true, ◌<◌, ◌∷◌, ◌≡◌,
  ◌⊎◌,
}

module _ (c : Crypto) (codec : JsonCodec) (self_evm_addr : Bytes) where
  -- Everything that one call can come to: no digest is asked for and the guard is as it was, or one
  -- is, of a genuine checkpoint whose timestamp is the new mark, above the old one.
  abbrev pub AskedOutcome : ServerState → CheckpointRequest → ServerState → Type 0
  AskedOutcome st req st' =
      ((st'.asked ≡ st.asked) × (st'.guard ≡ st.guard))
      ⊎ ((checkpoint : Bytes) × IsGenuine c self_evm_addr req checkpoint
          × (st'.asked ≡ c.sha256 checkpoint ∷ st.asked)
          × (st'.guard.high_water ≡ req.validator_timestamp)
          × (st.guard.loaded ≡ true → st.guard.high_water < req.validator_timestamp))

  pub checkpoint-length :
      (req : CheckpointRequest) (checkpoint : Bytes)
      → IsGenuine c self_evm_addr req checkpoint
      → length checkpoint ≡ 32
  checkpoint-length req checkpoint v =
      let l = v.formatted.checkpoint_length in let e = v.expected in cc

  pub verify_checkpoint_ok :
      (req : CheckpointRequest) (checkpoint : Bytes)
      → verify_checkpoint c self_evm_addr req ≡ ok checkpoint
      → IsGenuine c self_evm_addr req checkpoint
  verify_checkpoint_ok req checkpoint h =
      (verify_checkpoint-IsGenuine c self_evm_addr req checkpoint).0 h

  granted-asked :
      (env : Surroundings) (st : ServerState) (req : CheckpointRequest) (checkpoint : Bytes)
      (r : ServerState × CheckpointResult)
      → IsGenuine c self_evm_addr req checkpoint
      → GrantedOutcome c codec env st req.validator_timestamp checkpoint r
      → AskedOutcome st req r.0
  unfolding advanced
  granted-asked env st req checkpoint r v (above, d, (asked, inl (kept, _))) =
      inr (checkpoint, v, asked, ap (λ (g : CheckpointReplayGuard). g.high_water) kept, above)
  granted-asked env st req checkpoint r v (above, d, (asked, inr (sig, _, _, kept, _))) =
      inr (checkpoint, v, asked, ap (λ (g : CheckpointReplayGuard). g.high_water) kept, above)

  -- The backend is asked only for the hash of a checkpoint that the request genuinely describes,
  -- once in a call, and only after the mark has moved up to the request's timestamp. A call that
  -- does not ask it leaves the guard as it was.
  pub sign_bridge_checkpoint-AskedOutcome :
      (env : Surroundings) (st : ServerState) (req : CheckpointRequest)
      → AskedOutcome st req (sign_bridge_checkpoint c codec self_evm_addr env st req).0
  unfolding sign_bridge_checkpoint
  sign_bridge_checkpoint-AskedOutcome env st req =
      elim (Result-cases (verify_checkpoint c self_evm_addr req)) [
        | inl (e, refused) ↦ rw (refused, sign_bridge_checkpoint) (inl (refl, refl))
        | inr (checkpoint, passed) ↦
            let v = verify_checkpoint_ok req checkpoint passed in
            rw (passed, sign_bridge_checkpoint)
              (elim (guard_and_sign_lem c codec env st req.validator_timestamp checkpoint
                (checkpoint-length req checkpoint v)) [
                  | inl (asked, kept, _) ↦ inl (asked, kept)
                  | inr granted ↦
                      granted-asked env st req checkpoint
                        (guard_and_sign c codec env st req.validator_timestamp checkpoint) v granted
                ])
      ]

  -- The two sources of a signature: the backend, which was given the checkpoint's hash, or the
  -- memo of this very checkpoint at the mark, and then the state is as it was.
  abbrev pub SignatureSource :
      Surroundings → ServerState → CheckpointRequest → ServerState → CheckpointResponse → Type 0
  SignatureSource env st req st' res =
      ((env.sign_raw (c.sha256 res.checkpoint) ≡ some res.signature)
        × (length res.signature ≡ 64)
        × (st'.asked ≡ c.sha256 res.checkpoint ∷ st.asked))
      ⊎ ((st' ≡ st)
          × (req.validator_timestamp ≡ st.guard.high_water)
          × (st.guard.signed_checkpoint ≡ some res.checkpoint)
          × (st.guard.signed_signature ≡ some res.signature))

  source_of :
      (env : Surroundings) (st : ServerState) (req : CheckpointRequest) (checkpoint : Bytes)
      (r : ServerState × CheckpointResult) (res : CheckpointResponse)
      → IsGenuine c self_evm_addr req checkpoint
      → RefusedOutcome c codec env st req.validator_timestamp checkpoint r
        ⊎ GrantedOutcome c codec env st req.validator_timestamp checkpoint r
      → r.1 ≡ ok res
      → IsGenuine c self_evm_addr req res.checkpoint × SignatureSource env st req r.0 res
  source_of env st req checkpoint r res v (inl (_, _, memo)) answered =
      let (same, at_mark, ck, sig, e) = memo res answered in
      (rw e v, inr (same, at_mark, rw e ck, sig))
  source_of env st req checkpoint r res v (inr (_, _, (_, inl (_, failed)))) answered =
      absurd (failed res answered)
  source_of env st req checkpoint r res v (inr (_, _, (asked, inr (sig, made, whole, _, e))))
        answered =
      let same : res ≡ record { signature = sig; checkpoint = checkpoint } = ground arith in
      rw same (v, inl (made, whole, asked))

  -- An answer is for the checkpoint that the request genuinely describes, and its signature is
  -- either the backend's, of 64 bytes, or the memo's.
  pub sign_bridge_checkpoint-IsGenuine :
      (env : Surroundings) (st : ServerState) (req : CheckpointRequest) (res : CheckpointResponse)
      → (sign_bridge_checkpoint c codec self_evm_addr env st req).1 ≡ ok res
      → IsGenuine c self_evm_addr req res.checkpoint
        × SignatureSource env st req (sign_bridge_checkpoint c codec self_evm_addr env st req).0 res
  unfolding sign_bridge_checkpoint
  sign_bridge_checkpoint-IsGenuine env st req res answered =
      elim (Result-cases (verify_checkpoint c self_evm_addr req)) [
        | inl (e, refused) ↦ absurd (ground arith)
        | inr (checkpoint, passed) ↦
            let v = verify_checkpoint_ok req checkpoint passed in
            let run : sign_bridge_checkpoint c codec self_evm_addr env st req
                ≡ guard_and_sign c codec env st req.validator_timestamp checkpoint =
              rw (passed, sign_bridge_checkpoint) refl in
            subst
              (λ (r : ServerState × CheckpointResult).
                r.1 ≡ ok res
                → IsGenuine c self_evm_addr req res.checkpoint × SignatureSource env st req r.0 res)
              (sym run)
              (source_of env st req checkpoint _ res v (
                guard_and_sign_lem c codec env st req.validator_timestamp checkpoint
                  (checkpoint-length req checkpoint v)))
              answered
      ]
