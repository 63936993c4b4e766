-- ===== src/Consensus/Handler/Responses.antt =====
-- consensus/handler.go: how a response is read back. A nil message, or one with a nil sum, is `none`.
use bridge_remote_signer.Base.{Bytes, Option, arith, none, some, ◌↔◌, ◌≡◌}
use bridge_remote_signer.Consensus.Types.{
  CometTypes, Vote, Proposal, Description, Message, pub_key_response, signed_vote_response,
  signed_proposal_response,
}

module _ (c : CometTypes) where
  unfoldable pub must_pub_key_response :
      Option (Message c) → Option (Option c.PubKeyProto × Option (Description c))
  must_pub_key_response (some (pub_key_response key e)) = some (key, e)
  must_pub_key_response _ = none

  unfoldable pub must_signed_vote_response :
      Option (Message c) → Option (Vote c × Option (Description c))
  must_signed_vote_response (some (signed_vote_response v e)) = some (v, e)
  must_signed_vote_response _ = none

  unfoldable pub must_signed_proposal_response :
      Option (Message c) → Option (Proposal c × Option (Description c))
  must_signed_proposal_response (some (signed_proposal_response p e)) = some (p, e)
  must_signed_proposal_response _ = none

  -- `PubKeyFromProto` of CometBFT is `from_proto`, of the zero key where the response has none.
  unfoldable pub pub_key_from_response :
      {Key : Type 0}
      → (Option c.PubKeyProto → Option Key)
      → Option (Option c.PubKeyProto × Option (Description c))
      → Option Key
  pub_key_from_response from_proto none = none
  pub_key_from_response from_proto (some (key, some e)) = none
  pub_key_from_response from_proto (some (key, none)) = from_proto key

  -- `get_pub_key` and `address` are the validator's.
  unfoldable pub validator_address_for_handler :
      {Key : Type 0} → (Key → Bytes) → Option Key → Option Bytes
  validator_address_for_handler address none = none
  validator_address_for_handler address (some key) = some (address key)

  -- A message reads back as the one response that was wrapped, and as no other.
  pub must-wrap :
      (m : Message c) (key : Option c.PubKeyProto) (v : Vote c) (p : Proposal c)
      (e : Option (Description c))
      → ((must_pub_key_response (some m) ≡ some (key, e)) ↔ (m ≡ pub_key_response key e))
        × ((must_signed_vote_response (some m) ≡ some (v, e)) ↔ (m ≡ signed_vote_response v e))
        × ((must_signed_proposal_response (some m) ≡ some (p, e))
            ↔ (m ≡ signed_proposal_response p e))
  unfolding must_pub_key_response must_signed_vote_response must_signed_proposal_response
  must-wrap m key v p e = ground arith
