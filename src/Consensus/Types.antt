-- ===== src/Consensus/Types.antt =====
-- The privval messages, as consensus/handler.go reads and builds them. The types and the checks
-- of CometBFT are parameters.
use bridge_remote_signer.Base.{Bool, Bytes, Option, [], pos, ℕ, ℤ}

-- What the source takes from CometBFT's types: the wire form of a block id and its decoding, the
-- vote and proposal types, the greatest size of a vote extension, and the errors of its handler.
pub record CometTypes : Type 1 where
  pub BlockIdProto : Type 0
  pub zero_block_id : BlockIdProto
  pub BlockId : Type 0
  pub block_id_from_proto : BlockIdProto → Option BlockId
  pub is_zero : BlockId → Bool
  pub is_complete : BlockId → Bool
  pub is_vote_type_valid : ℤ → Bool
  pub precommit_type : ℤ
  pub proposal_type : ℤ
  pub max_vote_extension_size : ℕ
  pub PubKeyProto : Type 0
  pub HandlerError : Type 0

module _ (c : CometTypes) where
  pub record Vote : Type 0 where
    pub type : ℤ
    pub height : ℤ
    pub round : ℤ
    pub block_id : c.BlockIdProto
    pub validator_address : Bytes
    pub validator_index : ℤ
    pub signature : Bytes
    pub extension : Bytes
    pub extension_signature : Bytes

  pub record Proposal : Type 0 where
    pub type : ℤ
    pub height : ℤ
    pub round : ℤ
    pub pol_round : ℤ
    pub block_id : c.BlockIdProto
    pub signature : Bytes

  -- The errors that validate.go and handler.go make.
  pub data Error : Type 0 where
    empty_chain_id oversized_chain_id nul_chain_id : Error
    nil_vote vote_height negative_vote_round negative_validator_index : Error
    invalid_vote_type : ℤ → Error
    address_length : ℕ → ℕ → Error
    address_mismatch bad_block_id partial_block_id : Error
    extension_size extension_not_allowed extension_signature_not_allowed : Error
    nil_proposal negative_proposal_height negative_proposal_round pol_round : Error
    invalid_proposal_type : ℤ → Error
    incomplete_block_id : Error
    delegated : c.HandlerError → Error

  -- The description in a `RemoteSignerError`.
  pub data Description : Type 0 where
    of_error : Error → Description
    nil_vote_in_request nil_proposal_in_request not_primary : Description

  -- The kinds of `privvalproto.Message` in play. A nil pointer in a request is `none`.
  pub data Message : Type 0 where
    pub_key_request : Bytes → Message
    sign_vote_request : Option Vote → Bytes → Message
    sign_proposal_request : Option Proposal → Bytes → Message
    ping_request : Message
    pub_key_response : Option c.PubKeyProto → Option Description → Message
    signed_vote_response : Vote → Option Description → Message
    signed_proposal_response : Proposal → Option Description → Message
    ping_response : Message

  -- `cmtproto.Vote{}` and `cmtproto.Proposal{}`
  abbrev pub zero_vote : Vote
  zero_vote = record {
    type = pos 0;
    height = pos 0;
    round = pos 0;
    block_id = c.zero_block_id;
    validator_address = [];
    validator_index = pos 0;
    signature = [];
    extension = [];
    extension_signature = [];
  }

  abbrev pub zero_proposal : Proposal
  zero_proposal = record {
    type = pos 0;
    height = pos 0;
    round = pos 0;
    pol_round = pos 0;
    block_id = c.zero_block_id;
    signature = [];
  }
