-- ===== src/Consensus/Validate/Laws.antt =====
-- The checks accept exactly the requests that the rules below describe.
use bridge_remote_signer.Net.{contains}
use bridge_remote_signer.Net.Laws.{Lacks, contains_of_Lacks}
use bridge_remote_signer.Consensus.Types.{CometTypes, Vote, Proposal}
use bridge_remote_signer.Consensus.Validate.{
  validate_request_chain_id, check_address, check_vote_block, validate_sign_vote_request,
  validate_sign_proposal_request,
}
use bridge_remote_signer.Base.{
  Bytes, Option-cases, [], arith, false, inl, inr, length, negsuc, none, pos, some, true, ℕ, ◌<ℤ◌,
  ◌↔◌, ◌∷◌, ◌≡◌, ◌≢◌, ◌≤ℤ◌, ◌≤◌, ◌⊎◌,
}

-- A chain id of 1 to 64 bytes, none of them NUL.
pub record IsChainId (id : Bytes) : Type 0 where
  pub some_byte : 1 ≤ length id
  pub short : length id ≤ 64
  pub no_nul : Lacks 0 id

module _ (c : CometTypes) where
  -- The rules for a vote, once its block id is decoded.
  pub record IsVoteFor (vote : Vote c) (bid : c.BlockId) : Type 0 where
    pub nil_or_complete : (c.is_zero bid ≡ true) ⊎ (c.is_complete bid ≡ true)
    pub extension_fits : length vote.extension ≤ c.max_vote_extension_size
    pub extension_place :
        (vote.extension ≢ []) ⊎ (vote.extension_signature ≢ [])
        → (vote.type ≡ c.precommit_type) × (c.is_zero bid ≡ false)

  pub record IsVote (vote : Vote c) (expect_addr : Bytes) : Type 0 where
    pub known_type : c.is_vote_type_valid vote.type ≡ true
    pub height_pos : pos 0 <ℤ vote.height
    pub round_nonneg : pos 0 ≤ℤ vote.round
    pub index_nonneg : pos 0 ≤ℤ vote.validator_index
    pub own_address : expect_addr ≢ [] → vote.validator_address ≡ expect_addr
    pub bid : c.BlockId
    pub decoded : c.block_id_from_proto vote.block_id ≡ some bid
    pub block : IsVoteFor vote bid

  pub record IsProposal (prop : Proposal c) : Type 0 where
    pub proposal : prop.type ≡ c.proposal_type
    pub height_nonneg : pos 0 ≤ℤ prop.height
    pub round_nonneg : pos 0 ≤ℤ prop.round
    pub pol_bound : negsuc 0 ≤ℤ prop.pol_round
    pub bid : c.BlockId
    pub decoded : c.block_id_from_proto prop.block_id ≡ some bid
    pub complete : c.is_complete bid ≡ true

  contains-Lacks : (k : ℕ) (id : Bytes) → contains k id ≡ false → Lacks k id
  unfolding contains
  contains-Lacks k [] h = tt
  contains-Lacks k (x ∷ id) h = (ground arith, contains-Lacks k id (ground arith))

  -- A chain id passes exactly when it has 1 to 64 bytes and none of them is NUL.
  pub validate_request_chain_id-IsChainId :
      (id : Bytes) → (validate_request_chain_id c id ≡ none) ↔ IsChainId id
  unfolding validate_request_chain_id
  validate_request_chain_id-IsChainId id = (
    λ h. record {
      some_byte = ground arith;
      short = ground arith;
      no_nul = contains-Lacks 0 id (ground arith);
    },
    λ v. ground (arith, contains_of_Lacks 0 id v.no_nul),
  )

  check_address-none :
      (address expect_addr : Bytes)
      → (check_address c address expect_addr ≡ none) ↔ (expect_addr ≢ [] → address ≡ expect_addr)
  unfolding check_address
  check_address-none address [] = ground arith
  check_address-none address (e ∷ es) = (λ h _. ground arith, λ v. ground (arith, v (λ n. cc)))

  check_vote_block-IsVoteFor :
      (vote : Vote c) (bid : c.BlockId) → (check_vote_block c vote bid ≡ none) ↔ IsVoteFor vote bid
  unfolding check_vote_block
  check_vote_block-IsVoteFor vote bid = (
    λ h. record {
      nil_or_complete = ground arith;
      extension_fits = ground arith;
      extension_place = ground arith;
    },
    λ v. ground (arith, v.extension_place),
  )

  vote_block_of :
      (vote : Vote c) (expect_addr : Bytes)
      → validate_sign_vote_request c (some vote) expect_addr ≡ none
      → (bid : c.BlockId) × (c.block_id_from_proto vote.block_id ≡ some bid)
        × (check_vote_block c vote bid ≡ none)
  unfolding validate_sign_vote_request
  vote_block_of vote expect_addr h = elim (Option-cases (c.block_id_from_proto vote.block_id)) [
    | inl e ↦ absurd (ground arith)
    | inr (bid, e) ↦ (bid, e, ground arith)
  ]

  validate_vote_sound :
      (vote : Vote c) (expect_addr : Bytes)
      → validate_sign_vote_request c (some vote) expect_addr ≡ none
      → IsVote vote expect_addr
  unfolding validate_sign_vote_request
  validate_vote_sound vote expect_addr h =
      let (bid, decoded, rest) = vote_block_of vote expect_addr h in
      record {
        known_type = ground arith;
        height_pos = ground arith;
        round_nonneg = ground arith;
        index_nonneg = ground arith;
        own_address = (check_address-none vote.validator_address expect_addr).0 (ground arith);
        bid = bid;
        decoded = decoded;
        block = (check_vote_block-IsVoteFor vote bid).0 rest;
      }

  validate_vote_complete :
      (vote : Vote c) (expect_addr : Bytes)
      → IsVote vote expect_addr
      → validate_sign_vote_request c (some vote) expect_addr ≡ none
  unfolding validate_sign_vote_request
  validate_vote_complete vote expect_addr v =
      let addressed = (check_address-none vote.validator_address expect_addr).1 v.own_address in
      let placed = (check_vote_block-IsVoteFor vote v.bid).1 v.block in
      let decoded = v.decoded in let known = v.known_type in ground arith

  -- A vote passes exactly when its type is known, its height is positive, its round and index are
  -- not negative, its address is the expected one if one is expected, its block id decodes to a
  -- nil or complete one, and it carries an extension of allowed size, or an extension signature,
  -- only on a precommit for a block.
  pub validate_sign_vote_request-IsVote :
      (vote : Vote c) (expect_addr : Bytes)
      → (validate_sign_vote_request c (some vote) expect_addr ≡ none) ↔ IsVote vote expect_addr
  validate_sign_vote_request-IsVote vote expect_addr =
      (validate_vote_sound vote expect_addr, validate_vote_complete vote expect_addr)

  validate_proposal_sound :
      (prop : Proposal c) → validate_sign_proposal_request c (some prop) ≡ none → IsProposal prop
  unfolding validate_sign_proposal_request
  validate_proposal_sound prop h = elim (Option-cases (c.block_id_from_proto prop.block_id)) [
    | inl e ↦ absurd (ground arith)
    | inr (bid, e) ↦ record {
      proposal = ground arith;
      height_nonneg = ground arith;
      round_nonneg = ground arith;
      pol_bound = ground arith;
      bid = bid;
      decoded = e;
      complete = ground arith;
    }
  ]

  -- A proposal passes exactly when it has the proposal type, its height and round are not
  -- negative, its POL round is at least -1 and its block id decodes to a complete one.
  pub validate_sign_proposal_request-IsProposal :
      (prop : Proposal c) → (validate_sign_proposal_request c (some prop) ≡ none) ↔ IsProposal prop
  unfolding validate_sign_proposal_request
  validate_sign_proposal_request-IsProposal prop = (
    validate_proposal_sound prop,
    λ v. let decoded = v.decoded in let whole = v.complete in let kind = v.proposal in ground arith,
  )
