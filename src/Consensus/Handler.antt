-- ===== src/Consensus/Handler.antt =====
-- consensus/handler.go: the checks in front of CometBFT's own handler. That handler,
-- `privval.DefaultValidationRequestHandler`, is the parameter `next`; it signs with the validator
-- key, whose state (key and last signed height, round and step) is of an unknown type `S`.
-- The mutex of consensus/locked_pv.go makes each use of that state one step.
pub mod Laws
pub mod Responses
use bridge_remote_signer.Consensus.Types.{
  CometTypes, Vote, Proposal, Error, nil_vote, nil_proposal, Description, of_error,
  nil_vote_in_request, nil_proposal_in_request, Message, pub_key_request, sign_vote_request,
  sign_proposal_request, pub_key_response, signed_vote_response, signed_proposal_response,
  zero_vote, zero_proposal,
}
use bridge_remote_signer.Consensus.Validate.{
  validate_request_chain_id, validate_sign_vote_request, validate_sign_proposal_request,
}
use bridge_remote_signer.Base.{Bytes, Option, none, some}

-- A handler takes the key's state, a request and the chain id, and returns the new state, the
-- response and an error for the log.
abbrev pub Handler : CometTypes → Type 0 → Type 0
Handler c S = S → Message c → Bytes → S × Message c × Option (Error c)

module _ (c : CometTypes) {S : Type 0} where
  abbrev refuse_pub_key : S → Error c → S × Message c × Option (Error c)
  refuse_pub_key pv e = (pv, pub_key_response none (some (of_error e)), some e)

  abbrev refuse_vote : S → Description c → Error c → S × Message c × Option (Error c)
  refuse_vote pv d e = (pv, signed_vote_response (zero_vote c) (some d), some e)

  abbrev refuse_proposal : S → Description c → Error c → S × Message c × Option (Error c)
  refuse_proposal pv d e = (pv, signed_proposal_response (zero_proposal c) (some d), some e)

  unfoldable pub validation_request_handler : Handler c S → Bytes → Handler c S
  validation_request_handler next val_addr pv (pub_key_request cid) chain_id =
      elim (validate_request_chain_id c cid) [
        | some e ↦ refuse_pub_key pv e
        | none ↦ next pv (pub_key_request cid) chain_id
      ]
  validation_request_handler next val_addr pv (sign_vote_request none cid) chain_id =
      elim (validate_request_chain_id c cid) [
        | some e ↦ refuse_vote pv (of_error e) e
        | none ↦ refuse_vote pv nil_vote_in_request nil_vote
      ]
  validation_request_handler next val_addr pv (sign_vote_request (some v) cid) chain_id =
      elim (validate_request_chain_id c cid) [
        | some e ↦ refuse_vote pv (of_error e) e
        | none ↦ elim (validate_sign_vote_request c (some v) val_addr) [
          | some e ↦ refuse_vote pv (of_error e) e
          | none ↦ next pv (sign_vote_request (some v) cid) chain_id
        ]
      ]
  validation_request_handler next val_addr pv (sign_proposal_request none cid) chain_id =
      elim (validate_request_chain_id c cid) [
        | some e ↦ refuse_proposal pv (of_error e) e
        | none ↦ refuse_proposal pv nil_proposal_in_request nil_proposal
      ]
  validation_request_handler next val_addr pv (sign_proposal_request (some p) cid) chain_id =
      elim (validate_request_chain_id c cid) [
        | some e ↦ refuse_proposal pv (of_error e) e
        | none ↦ elim (validate_sign_proposal_request c (some p)) [
          | some e ↦ refuse_proposal pv (of_error e) e
          | none ↦ next pv (sign_proposal_request (some p) cid) chain_id
        ]
      ]
  validation_request_handler next val_addr pv req chain_id = next pv req chain_id
