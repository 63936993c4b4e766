-- ===== src/Consensus/Handler/Laws.antt =====
-- Only requests that meet the rules reach the key.
use bridge_remote_signer.Consensus.Types.{
  CometTypes, Message, Error, pub_key_request, sign_vote_request, sign_proposal_request,
  pub_key_response, signed_vote_response, signed_proposal_response,
}
use bridge_remote_signer.Consensus.Validate.Laws.{
  IsChainId, IsVote, IsProposal, validate_request_chain_id-IsChainId,
  validate_sign_vote_request-IsVote, validate_sign_proposal_request-IsProposal,
}
use bridge_remote_signer.Consensus.Handler.{Handler, validation_request_handler}
use bridge_remote_signer.Base.{Bytes, Option, [], arith, inl, none, refl, some, ◌≡◌, ◌≢◌, ◌⊎◌}

module _ (c : CometTypes) where
  -- The rules for a request, by its kind. A nil vote or proposal breaks them.
  abbrev pub IsAdmissible : Bytes → Message c → Type 0
  IsAdmissible val_addr (pub_key_request cid) = IsChainId cid
  IsAdmissible val_addr (sign_vote_request none cid) = ⊥
  IsAdmissible val_addr (sign_vote_request (some v) cid) = IsChainId cid × IsVote c v val_addr
  IsAdmissible val_addr (sign_proposal_request none cid) = ⊥
  IsAdmissible val_addr (sign_proposal_request (some p) cid) = IsChainId cid × IsProposal c p
  IsAdmissible val_addr _ = Unit

  -- The response that a refused request gets: of its own kind, with an error, and no signature.
  abbrev pub IsRefusal : Message c → Message c → Type 0
  IsRefusal (pub_key_request cid) (pub_key_response key e) = (key ≡ none) × (e ≢ none)
  IsRefusal (sign_vote_request v cid) (signed_vote_response w e) = (w.signature ≡ []) × (e ≢ none)
  IsRefusal (sign_proposal_request p cid) (signed_proposal_response q e) =
      (q.signature ≡ []) × (e ≢ none)
  IsRefusal _ _ = ⊥

module _ (c : CometTypes) {S : Type 0} (next : Handler c S) (val_addr : Bytes) where
  -- Either the request meets the rules and CometBFT's handler answers it, or it breaks them, the
  -- key's state is untouched, the response is a refusal and an error is returned.
  abbrev pub Guarded : S → Message c → Bytes → S × Message c × Option (Error c) → Type 0
  Guarded pv req chain_id r =
      (IsAdmissible c val_addr req × (r ≡ next pv req chain_id))
      ⊎ ((¬ IsAdmissible c val_addr req) × (r.0 ≡ pv) × IsRefusal c req r.1 × (r.2 ≢ none))

  -- The two cases above cover every request, state and chain id.
  pub validation_request_handler-Guarded :
      (pv : S) (req : Message c) (chain_id : Bytes)
      → Guarded pv req chain_id (validation_request_handler c next val_addr pv req chain_id)
  unfolding validation_request_handler
  validation_request_handler-Guarded pv (pub_key_request cid) chain_id =
      ground (arith, validate_request_chain_id-IsChainId c cid)
  validation_request_handler-Guarded pv (sign_vote_request none cid) chain_id = ground arith
  validation_request_handler-Guarded pv (sign_vote_request (some v) cid) chain_id = ground (
    arith,
    validate_request_chain_id-IsChainId c cid,
    validate_sign_vote_request-IsVote c v val_addr,
  )
  validation_request_handler-Guarded pv (sign_proposal_request none cid) chain_id = ground arith
  validation_request_handler-Guarded pv (sign_proposal_request (some p) cid) chain_id = ground (
    arith,
    validate_request_chain_id-IsChainId c cid,
    validate_sign_proposal_request-IsProposal c p,
  )
  validation_request_handler-Guarded pv _ chain_id = inl (tt, refl)
