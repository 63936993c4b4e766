-- ===== src/Server/BridgeCheckpoint/Tests.antt =====
-- A validator set of one member, on mainnet: its checkpoint is signed, asked again, and refused
-- after the backend has failed.
use bridge_remote_signer.Server.ReplayGuard.{
  replay_rejected, check_and_advance, record_signature, persist_locked, write_bytes_atomic,
}
use bridge_remote_signer.Server.BridgeCheckpoint.Repeats.{
  sign_bridge_checkpoint_repeat, sign_bridge_checkpoint_burned,
}
use bridge_remote_signer.Server.ReplayGuard.Tests.{braces}
use bridge_remote_signer.Server.Checkpoint.Order.{IsCanonical, sort_bridge_validators_lem}
use bridge_remote_signer.Server.Samples.{crypto, refuses, signs, sample_signature}
use bridge_remote_signer.Server.BridgeCheckpoint.Verify.{
  IsGenuine, sum_power, want_threshold_of_small, verify_checkpoint-IsGenuine,
}
use bridge_remote_signer.Server.Checkpoint.{
  BridgeValidator, sort_bridge_validators, insert_sorted, less, bytes_ltb,
  encode_and_hash_validator_set, encode_validators, word, compute_domain_separator, fixed32,
  encode_valset_checkpoint,
}
use bridge_remote_signer.Server.BridgeCheckpoint.Calls.{
  AskedOutcome, SignatureSource, sign_bridge_checkpoint-IsGenuine,
  sign_bridge_checkpoint-AskedOutcome,
}
use bridge_remote_signer.Server.BridgeCheckpoint.{
  want_threshold, sign_bridge_checkpoint, CheckpointRequest, Surroundings, verify_checkpoint,
  ServerState, CheckpointResponse, guard_and_sign, check_format, after_guard, check_entries,
  check_content, sign_verified, replay_guard, is_member, signing_failed, total_power,
}
use mathlib.Core.List.{Permᴰ}
use bridge_remote_signer.Base.{
  Bytes, List, [], arith, ascii, bytes_dec, err, false, none, ok, refl, replicate, true, ◌*◌, ◌++◌,
  ◌/◌, ◌↔◌, ◌∷◌, ◌≡◌,
}

abbrev pub self_address : Bytes
self_address = replicate 20 7

abbrev validators : List BridgeValidator
validators =
    record { ethereum_address = replicate 20 3; power = 2 }
    ∷ record { ethereum_address = self_address; power = 7 }
    ∷ []

abbrev pub domain : Bytes
domain = ascii "checkpoint" ++ replicate 22 0

abbrev pub request : CheckpointRequest
request = record {
  domain_separator = domain;
  validator_set_hash = replicate 31 0 ++ 32 ∷ [];
  expected_checkpoint = domain;
  validator_set = validators;
  chain_id = ascii "tellor-1";
  power_threshold = 6;
  validator_timestamp = 100;
}

abbrev state : ServerState
state = record {
  guard = record {
    state_path = ascii "guard";
    high_water = 50;
    loaded = true;
    signed_checkpoint = none;
    signed_signature = none;
  };
  disk = none;
  asked = [];
}

abbrev pub works : Surroundings
works = record { advance_fails = λ s. false; record_fails = λ s. false; sign_raw = signs }

abbrev pub backend_down : Surroundings
backend_down = record { advance_fails = λ s. false; record_fails = λ s. false; sign_raw = refuses }

abbrev response : CheckpointResponse
response = record { signature = sample_signature; checkpoint = domain }

pub verified : verify_checkpoint crypto self_address request ≡ ok domain
unfolding verify_checkpoint check_format check_entries check_content is_member
    sort_bridge_validators insert_sorted less bytes_ltb encode_and_hash_validator_set
    encode_validators word compute_domain_separator fixed32 encode_valset_checkpoint want_threshold
    total_power bytes_dec
verified = refl

answered : (sign_bridge_checkpoint crypto braces self_address works state request).1 ≡ ok response
unfolding sign_bridge_checkpoint guard_and_sign after_guard sign_verified check_and_advance
    record_signature persist_locked write_bytes_atomic bytes_dec
answered = rw (verified, sign_bridge_checkpoint) refl

failed :
    (sign_bridge_checkpoint crypto braces self_address backend_down state request).1
    ≡ err signing_failed
unfolding sign_bridge_checkpoint guard_and_sign after_guard sign_verified check_and_advance
    persist_locked write_bytes_atomic bytes_dec
failed = rw (verified, sign_bridge_checkpoint) refl

asked :
    (sign_bridge_checkpoint crypto braces self_address backend_down state request).0.asked
    ≡ domain ∷ []
unfolding sign_bridge_checkpoint guard_and_sign after_guard sign_verified check_and_advance
    persist_locked write_bytes_atomic bytes_dec
asked = rw (verified, sign_bridge_checkpoint) refl

verify_checkpoint-IsGenuine_example :
    (verify_checkpoint crypto self_address request ≡ ok domain)
    ↔ IsGenuine crypto self_address request domain
verify_checkpoint-IsGenuine_example = verify_checkpoint-IsGenuine crypto self_address request domain

want_threshold_of_small_example :
    want_threshold (sort_bridge_validators validators) ≡ sum_power validators * 2 / 3
want_threshold_of_small_example = want_threshold_of_small validators (omega arith)

sign_bridge_checkpoint-AskedOutcome_example :
    AskedOutcome crypto braces self_address state request
      (sign_bridge_checkpoint crypto braces self_address works state request).0
sign_bridge_checkpoint-AskedOutcome_example =
    sign_bridge_checkpoint-AskedOutcome crypto braces self_address works state request

sign_bridge_checkpoint-IsGenuine_case :
    IsGenuine crypto self_address request domain
    × SignatureSource crypto braces self_address works state request
        (sign_bridge_checkpoint crypto braces self_address works state request).0
        response
sign_bridge_checkpoint-IsGenuine_case =
    sign_bridge_checkpoint-IsGenuine crypto braces self_address works state request response
      answered

sign_bridge_checkpoint_repeat_example :
    let st' = (sign_bridge_checkpoint crypto braces self_address works state request).0 in
    sign_bridge_checkpoint crypto braces self_address backend_down st' request ≡ (st', ok response)
sign_bridge_checkpoint_repeat_example =
    sign_bridge_checkpoint_repeat crypto braces self_address works backend_down state request
      response refl answered

sign_bridge_checkpoint_burned_example :
    let st' = (sign_bridge_checkpoint crypto braces self_address backend_down state request).0 in
    sign_bridge_checkpoint crypto braces self_address works st' request
    ≡ (st', err (replay_guard (replay_rejected 100 100)))
sign_bridge_checkpoint_burned_example =
    sign_bridge_checkpoint_burned crypto braces self_address backend_down works state request
      signing_failed refl failed (λ e. cc (asked))

sort_bridge_validators_lem_example :
    Permᴰ (sort_bridge_validators validators) validators
    × IsCanonical (sort_bridge_validators validators)
    × ((ws : List BridgeValidator)
        → Permᴰ validators ws
        → sort_bridge_validators validators ≡ sort_bridge_validators ws)
sort_bridge_validators_lem_example = sort_bridge_validators_lem validators
