-- ===== src/Consensus/Tests.antt =====
-- Runs of the election, the checks and the dial client on concrete inputs, and the theorems there.
use bridge_remote_signer.Metrics.{no_metrics}
use bridge_remote_signer.Consensus.Primary.{
  PrimaryArbiter, new_preferring_primary_arbiter, acquire, outranks,
}
use bridge_remote_signer.Consensus.Primary.Laws.{MayTake, acquire-MayTake, acquire_effect}
use bridge_remote_signer.Consensus.Primary.Order.{position, is_before, outranks-position}
use bridge_remote_signer.Consensus.Primary.History.{
  Event, request, disconnect, run, IsOrderly, run-IsOrderly,
}
use bridge_remote_signer.Consensus.Host.{host_of, dial_target, peer_addr, host_of_same_node}
use bridge_remote_signer.Consensus.Types.{
  CometTypes, Vote, Proposal, Message, sign_vote_request, ping_request,
}
use bridge_remote_signer.Consensus.Validate.{
  validate_request_chain_id, validate_sign_vote_request, validate_sign_proposal_request,
}
use bridge_remote_signer.Consensus.Validate.Laws.{
  IsChainId, IsVote, IsProposal, validate_request_chain_id-IsChainId,
  validate_sign_vote_request-IsVote, validate_sign_proposal_request-IsProposal,
}
use bridge_remote_signer.Consensus.Handler.{Handler, validation_request_handler}
use bridge_remote_signer.Consensus.Handler.Laws.{Guarded, validation_request_handler-Guarded}
use bridge_remote_signer.Consensus.Gate.{panics, Node, gated_handler, Returns}
use bridge_remote_signer.Consensus.Gate.Laws.{
  IsNilPayload, SignOutcome, gated_handler-panics, gated_handler-sign,
}
use bridge_remote_signer.Consensus.Dial.{
  Attempt, elapsed, canceled, dial_failed, connected, received, read_failed, run_dial_client,
}
use bridge_remote_signer.Consensus.Dial.Laws.{Ended, run_dial_client-Ended}
use bridge_remote_signer.Base.{
  Bytes, List, [], arith, ascii, bytes_dec, eqb_ℤ, false, if◌then◌else◌, length, lookup, ltb_ℤ,
  negsuc, none, pos, refl, replicate, some, true, ℕ, ◌+◌, ◌==◌, ◌||◌, ◌↔◌, ◌∷◌, ◌≡◌, bytes_eq,
  nat_eq,
}

abbrev pub node_a : Bytes
node_a = ascii "tcp://10.0.0.1:26659"

abbrev pub node_b : Bytes
node_b = ascii "tcp://10.0.0.2:26659"

abbrev order : List Bytes
order = node_a ∷ node_b ∷ []

-- `node_b` signs, `node_a` comes too low and then takes over, is lost, and `node_b` is back.
abbrev events : List Event
events =
    request 5 node_b (pos 8)
    ∷ request 6 node_a (pos 7)
    ∷ request 7 node_a (pos 8)
    ∷ disconnect node_b
    ∷ disconnect node_a
    ∷ request 9 node_b (pos 9)
    ∷ []

run-IsOrderly_example :
    IsOrderly 10 order [] 0 (pos 0) (run (new_preferring_primary_arbiter 10 order) events).1
run-IsOrderly_example = run-IsOrderly 10 order events

abbrev pub held_by_b : PrimaryArbiter
held_by_b = record {
  timeout = 10;
  rank = (node_a, 0) ∷ (node_b, 1) ∷ [];
  primary = node_b;
  last_req = 5;
  max_height = pos 8;
}

acquire-MayTake_behind :
    ((acquire held_by_b 6 node_a (pos 7)).1 ≡ true) ↔ MayTake held_by_b 6 node_a (pos 7)
acquire-MayTake_behind = acquire-MayTake held_by_b 6 node_a (pos 7)

acquire_refused : acquire held_by_b 6 node_a (pos 7) ≡ (held_by_b, false)
unfolding acquire outranks lookup bytes_dec
acquire_refused = refl

acquire_effect_case :
    let (b, granted) = acquire held_by_b 7 node_a (pos 9) in
    if granted
    then (b.primary ≡ node_a)
      × (b.last_req ≡ 7)
      × (b.max_height
          ≡ (if ltb_ℤ held_by_b.max_height (pos 9) then pos 9 else held_by_b.max_height))
      × (b.rank ≡ held_by_b.rank)
      × (b.timeout ≡ held_by_b.timeout)
    else b ≡ held_by_b
acquire_effect_case = acquire_effect held_by_b 7 node_a (pos 9)

outranks-position_example :
    outranks (new_preferring_primary_arbiter 10 order) node_a
    ≡ is_before
        (position 0 node_a order)
        (position 0 (new_preferring_primary_arbiter 10 order).primary order)
outranks-position_example =
    outranks-position 10 order (new_preferring_primary_arbiter 10 order) node_a refl

host_of_same_node_case :
    (host_of (dial_target (ascii "tcp") (ascii "node-1") (ascii "26659"))
      ≡ host_of (peer_addr (ascii "node-1") (ascii "51000")))
    × (host_of (peer_addr (ascii "node-1") (ascii "51000")) ≡ ascii "node-1")
host_of_same_node_case =
    host_of_same_node (ascii "tcp") (ascii "node-1") (ascii "26659") (ascii "51000") (ground arith)
      (record {
        no_colon = ground arith;
        no_open = ground arith;
        no_close = ground arith;
        no_slash = ground arith;
      })
      (record {
        no_colon = ground arith;
        no_open = ground arith;
        no_close = ground arith;
        no_slash = ground arith;
      })
      (record {
        no_colon = ground arith;
        no_open = ground arith;
        no_close = ground arith;
        no_slash = ground arith;
      })

-- Block ids of 3 bytes are complete.
abbrev pub comet : CometTypes
comet = record {
  BlockIdProto = Bytes;
  zero_block_id = [];
  BlockId = Bytes;
  block_id_from_proto = some;
  is_zero = λ b. b == [];
  is_complete = λ b. length b == 3;
  is_vote_type_valid = λ t. eqb_ℤ t (pos 1) || eqb_ℤ t (pos 2);
  precommit_type = pos 2;
  proposal_type = pos 32;
  max_vote_extension_size = 1048576;
  PubKeyProto = Bytes;
  HandlerError = Unit;
}

abbrev address : Bytes
address = replicate 20 7

abbrev precommit : Vote comet
precommit = record {
  type = pos 2;
  height = pos 9;
  round = pos 0;
  block_id = 1 ∷ 2 ∷ 3 ∷ [];
  validator_address = address;
  validator_index = pos 4;
  signature = [];
  extension = 5 ∷ [];
  extension_signature = [];
}

abbrev proposal : Proposal comet
proposal = record {
  type = pos 32;
  height = pos 9;
  round = pos 1;
  pol_round = negsuc 0;
  block_id = 1 ∷ 2 ∷ 3 ∷ [];
  signature = [];
}

tellor-IsChainId :
    (validate_request_chain_id comet (ascii "tellor-1") ≡ none) ↔ IsChainId (ascii "tellor-1")
tellor-IsChainId = validate_request_chain_id-IsChainId comet (ascii "tellor-1")

validate_sign_vote_request-IsVote_example :
    (validate_sign_vote_request comet (some precommit) address ≡ none)
    ↔ IsVote comet precommit address
validate_sign_vote_request-IsVote_example =
    validate_sign_vote_request-IsVote comet precommit address

validate_sign_proposal_request-IsProposal_example :
    (validate_sign_proposal_request comet (some proposal) ≡ none) ↔ IsProposal comet proposal
validate_sign_proposal_request-IsProposal_example =
    validate_sign_proposal_request-IsProposal comet proposal

-- A key that counts its signatures.
abbrev pub counting : Handler comet ℕ
counting pv req chain_id = (pv + 1, ping_request, none)

abbrev pub vote_request : Message comet
vote_request = sign_vote_request (some precommit) (ascii "tellor-1")

validation_request_handler-Guarded_example :
    Guarded comet counting address 0 vote_request
      (ascii "tellor-1")
      (validation_request_handler comet counting address 0 vote_request (ascii "tellor-1"))
validation_request_handler-Guarded_example =
    validation_request_handler-Guarded comet counting address 0 vote_request (ascii "tellor-1")

abbrev pub node : Node ℕ
node = record { arbiter = some held_by_b; metrics = no_metrics; pv = 0 }

gated_handler-panics_example :
    (gated_handler comet counting held_by_b node_a node 6 (sign_vote_request none []) [] ≡ panics)
    ↔ IsNilPayload comet (sign_vote_request none [])
gated_handler-panics_example =
    gated_handler-panics comet counting held_by_b node_a node 6 (sign_vote_request none []) []

gated_handler-sign_example :
    SignOutcome comet counting held_by_b node_a node 6 vote_request (ascii "tellor-1") (pos 9)
gated_handler-sign_example =
    gated_handler-sign comet counting held_by_b node_a node 6 vote_request (ascii "tellor-1")
      (pos 9) refl refl

abbrev pub attempts : List (Attempt comet)
attempts =
    dial_failed elapsed
    ∷ dial_failed elapsed
    ∷ connected (received 6 vote_request true ∷ read_failed ∷ []) elapsed
    ∷ dial_failed canceled
    ∷ []

run_dial_client-Ended_example :
    Returns
      (Ended comet counting (ascii "tellor-1") node_a 0 attempts)
      (run_dial_client comet counting (ascii "tellor-1") node_a node attempts)
run_dial_client-Ended_example =
    run_dial_client-Ended comet counting (ascii "tellor-1") node_a node attempts (λ e. cc)
      (λ a e. ground arith) (tt, (tt, ((λ v. v, (tt, tt)), (tt, tt))))
