-- ===== src/Consensus/Gate/Laws.antt =====
-- Who gets through the gate, and when the gate faults.
use bridge_remote_signer.Metrics.{record_sign}
use bridge_remote_signer.Consensus.Primary.{PrimaryArbiter, acquire}
use mathlib.Core.Bool.{false≢true}
use bridge_remote_signer.Consensus.Handler.{Handler}
use bridge_remote_signer.Consensus.Primary.Laws.{acquire_effect, MayTake, acquire-MayTake}
use bridge_remote_signer.Consensus.Types.{
  CometTypes, Message, sign_vote_request, sign_proposal_request, signed_vote_response,
  signed_proposal_response, not_primary, zero_vote, zero_proposal,
}
use bridge_remote_signer.Consensus.Gate.{
  panics, returns, Node, sign, not_primary_response, delegate, gated_handler,
}
use bridge_remote_signer.Consensus.Handler.Laws.{IsRefusal}
use bridge_remote_signer.Base.{
  Bool-cases, Bytes, Option, ap, arith, inl, inr, none, some, sym, ℕ, ℤ, ◌↔◌, ◌∙◌, ◌≡◌, ◌⊎◌,
}

module _ (c : CometTypes) where
  -- A sign request with no vote or proposal in it.
  abbrev pub IsNilPayload : Message c → Type 0
  IsNilPayload (sign_vote_request none cid) = Unit
  IsNilPayload (sign_proposal_request none cid) = Unit
  IsNilPayload _ = ⊥

  -- The height that a sign request is for.
  abbrev pub sign_height : Message c → Option ℤ
  sign_height (sign_vote_request (some v) cid) = some v.height
  sign_height (sign_proposal_request (some p) cid) = some p.height
  sign_height _ = none

  not_primary_response-IsRefusal :
      (req : Message c) (height : ℤ)
      → sign_height req ≡ some height
      → (refusal : Message c) × (not_primary_response c req ≡ sign refusal height)
        × IsRefusal c req refusal
  unfolding not_primary_response
  not_primary_response-IsRefusal (sign_vote_request (some v) cid) height e =
      (signed_vote_response (zero_vote c) (some not_primary), ground arith, ground arith)
  not_primary_response-IsRefusal (sign_proposal_request (some p) cid) height e =
      (signed_proposal_response (zero_proposal c) (some not_primary), ground arith, ground arith)
  not_primary_response-IsRefusal (sign_vote_request none cid) height e = absurd (ground arith)
  not_primary_response-IsRefusal (sign_proposal_request none cid) height e = absurd (ground arith)
  not_primary_response-IsRefusal _ height e = absurd (ground arith)

module _ (c : CometTypes) {S : Type 0} (next : Handler c S) where
  -- With an election configured the handler panics exactly on a sign request with a nil payload,
  -- whichever node sends it and whoever is the primary.
  pub gated_handler-panics :
      (a : PrimaryArbiter) (id : Bytes) (n : Node S) (now : ℕ) (req : Message c) (chain_id : Bytes)
      → (gated_handler c next a id n now req chain_id ≡ panics) ↔ IsNilPayload c req
  unfolding gated_handler
  gated_handler-panics a id n now (sign_vote_request none cid) chain_id = ground arith
  gated_handler-panics a id n now (sign_vote_request (some v) cid) chain_id = ground arith
  gated_handler-panics a id n now (sign_proposal_request none cid) chain_id = ground arith
  gated_handler-panics a id n now (sign_proposal_request (some p) cid) chain_id = ground arith
  gated_handler-panics a id n now _ chain_id = ground arith

  -- The two outcomes of a sign request at the gate.
  abbrev pub SignOutcome : PrimaryArbiter → Bytes → Node S → ℕ → Message c → Bytes → ℤ → Type 0
  SignOutcome a id n now req chain_id height =
      ((¬ MayTake a now id height)
        × (res : Message c) × IsRefusal c req res
        × (gated_handler c next a id n now req chain_id ≡ returns (n, res, none)))
      ⊎ (MayTake a now id height
          × (b : PrimaryArbiter) × (b.primary ≡ id)
          × (gated_handler c next a id n now req chain_id
              ≡ returns (
                  delegate c next
                    (record n { arbiter = some b; metrics = record_sign n.metrics id }) req
                    chain_id)))

  -- A sign request that the election refuses is answered by a refusal without a signature, and
  -- the key's state, the metrics and the arbiter are as before. One that it grants makes the
  -- sender the primary, is recorded for it, and is answered by the handler behind the gate.
  pub gated_handler-sign :
      (a : PrimaryArbiter) (id : Bytes) (n : Node S) (now : ℕ) (req : Message c) (chain_id : Bytes)
      (height : ℤ)
      → n.arbiter ≡ some a
      → sign_height c req ≡ some height
      → SignOutcome a id n now req chain_id height
  unfolding gated_handler
  gated_handler-sign a id n now req chain_id height configured asked =
      let (refusal, is_sign, fits) = not_primary_response-IsRefusal c req height asked in
      elim (Bool-cases (acquire a now id height).1) [
        | inl taken ↦
            let effect = rw taken at (acquire_effect a now id height) in
            inr (
              (acquire-MayTake a now id height).0 taken,
              (acquire a now id height).0,
              effect.0,
              rw (is_sign, gated_handler) (rw taken),
            )
        | inr denied ↦
            let same = rw denied at (acquire_effect a now id height) in
            inl (
              λ m. false≢true (sym denied ∙ (acquire-MayTake a now id height).1 m),
              refusal,
              fits,
              rw (is_sign, gated_handler)
                  (rw denied (
                    ap
                      (λ (b : Option PrimaryArbiter).
                        returns (record n { arbiter = b }, refusal, none))
                      (ap some same ∙ sym configured))),
            )
      ]
