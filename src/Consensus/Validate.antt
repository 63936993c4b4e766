-- ===== src/Consensus/Validate.antt =====
-- consensus/validate.go: the checks on a request before it reaches the signer. `none` is a nil
-- error; the first error ends a check.
pub mod Laws
use bridge_remote_signer.Net.{contains}
use bridge_remote_signer.Consensus.Types.{
  CometTypes, Vote, Proposal, Error, empty_chain_id, oversized_chain_id, nul_chain_id, nil_vote,
  vote_height, negative_vote_round, negative_validator_index, invalid_vote_type, address_length,
  address_mismatch, bad_block_id, partial_block_id, extension_size, extension_not_allowed,
  extension_signature_not_allowed, nil_proposal, negative_proposal_height, negative_proposal_round,
  pol_round, invalid_proposal_type, incomplete_block_id,
}
use bridge_remote_signer.Base.{
  Bool, Bytes, Option, eqb_ℤ, false, if◌then◌else◌, leb_ℤ, length, ltb, ltb_ℤ, negsuc, none, not,
  pos, some, true, ℕ, ◌&&◌, ◌==◌, ◌||◌, bytes_eq, nat_eq,
}

abbrev pub max_chain_id_len : ℕ
max_chain_id_len = 64

infixl 5 ◌>>◌
abbrev pub ◌>>◌ {ℓ} : {E : Type ℓ} → Option E → Option E → Option E
none >> rest = rest
some e >> rest = some e

-- `if test { return e }`
abbrev pub reject_if {ℓ} : {E : Type ℓ} → Bool → E → Option E
reject_if true e = some e
reject_if false e = none

module _ (c : CometTypes) where
  unfoldable pub validate_request_chain_id : Bytes → Option (Error c)
  validate_request_chain_id id = do
    reject_if (length id == 0) empty_chain_id
    reject_if (ltb max_chain_id_len (length id)) oversized_chain_id
    reject_if (contains 0 id) nul_chain_id

  check_address : Bytes → Bytes → Option (Error c)
  check_address address expect_addr =
      if ltb 0 (length expect_addr)
      then (do
        reject_if (not (length address == length expect_addr))
            (address_length (length address) (length expect_addr))
        reject_if (not (address == expect_addr)) address_mismatch)
      else none

  check_extension : Vote c → c.BlockId → Option (Error c)
  check_extension vote bid =
      if not (eqb_ℤ vote.type c.precommit_type) || c.is_zero bid
      then (do
        reject_if (ltb 0 (length vote.extension)) extension_not_allowed
        reject_if (ltb 0 (length vote.extension_signature)) extension_signature_not_allowed)
      else none

  -- The checks from `bid` on.
  check_vote_block : Vote c → c.BlockId → Option (Error c)
  unfolding check_extension
  check_vote_block vote bid = do
    reject_if (not (c.is_zero bid) && not (c.is_complete bid)) partial_block_id
    reject_if (ltb c.max_vote_extension_size (length vote.extension)) extension_size
    check_extension vote bid

  unfoldable pub validate_sign_vote_request : Option (Vote c) → Bytes → Option (Error c)
  unfolding check_address check_vote_block
  validate_sign_vote_request none expect_addr = some nil_vote
  validate_sign_vote_request (some vote) expect_addr = do
    reject_if (not (c.is_vote_type_valid vote.type)) (invalid_vote_type vote.type)
    reject_if (leb_ℤ vote.height (pos 0)) vote_height
    reject_if (ltb_ℤ vote.round (pos 0)) negative_vote_round
    reject_if (ltb_ℤ vote.validator_index (pos 0)) negative_validator_index
    check_address vote.validator_address expect_addr
    elim (c.block_id_from_proto vote.block_id) [
      | none ↦ some bad_block_id
      | some bid ↦ check_vote_block vote bid
    ]

  unfoldable pub validate_sign_proposal_request : Option (Proposal c) → Option (Error c)
  validate_sign_proposal_request none = some nil_proposal
  validate_sign_proposal_request (some prop) = do
    reject_if (not (eqb_ℤ prop.type c.proposal_type)) (invalid_proposal_type prop.type)
    reject_if (ltb_ℤ prop.height (pos 0)) negative_proposal_height
    reject_if (ltb_ℤ prop.round (pos 0)) negative_proposal_round
    reject_if (ltb_ℤ prop.pol_round (negsuc 0)) pol_round
    elim (c.block_id_from_proto prop.block_id) [
      | none ↦ some bad_block_id
      | some bid ↦ reject_if (not (c.is_complete bid)) incomplete_block_id
    ]
