-- ===== src/Server/BridgeCheckpoint.antt =====
-- server/server.go: `SignBridgeCheckpoint`. The backend's answer is a function of the digest, which
-- may differ from request to request; `asked` holds the digests it was given, newest first.
-- A message from the wire holds no nil entry.
pub mod Laws
pub mod Verify
pub mod Calls
pub mod Repeats
pub mod Ledger
pub mod Concurrent
pub mod Binding
pub mod Tests
use bridge_remote_signer.Text.{u64_limit}
use bridge_remote_signer.Server.Crypto.{Crypto}
use bridge_remote_signer.Server.Checkpoint.{
  BridgeValidator, sort_bridge_validators, encode_and_hash_validator_set, compute_domain_separator,
  encode_valset_checkpoint,
}
use bridge_remote_signer.Server.ReplayGuard.{
  CheckpointReplayGuard, JsonCodec, WriteStep, GuardError, replay_rejected, Disk, check_and_advance,
  cached_signature, record_signature,
}
use bridge_remote_signer.Base.{
  Bool, Bytes, List, Option, Result, [], ensure, err, false, if◌then◌else◌, length, none, not, ok,
  some, ℕ, ◌%◌, ◌*◌, ◌+◌, ◌/◌, ◌==◌, ◌||◌, ◌∷◌, bytes_eq, nat_eq, ◌>>◌,
}

pub record CheckpointRequest : Type 0 where
  pub domain_separator : Bytes
  pub validator_set_hash : Bytes
  pub expected_checkpoint : Bytes
  pub validator_set : List BridgeValidator
  pub chain_id : Bytes
  pub power_threshold : ℕ
  pub validator_timestamp : ℕ

pub record CheckpointResponse : Type 0 where
  pub signature : Bytes
  pub checkpoint : Bytes

-- The errors, by the branch that returns them.
pub data CheckpointError : Type 0 where
  bad_domain_separator bad_validator_set_hash bad_expected_checkpoint : ℕ → CheckpointError
  empty_validator_set empty_chain_id : CheckpointError
  bad_address : ℕ → ℕ → CheckpointError
  zero_power : ℕ → CheckpointError
  encode_set_failed valset_hash_mismatch : CheckpointError
  threshold_mismatch : ℕ → ℕ → CheckpointError
  domain_failed domain_mismatch not_a_member : CheckpointError
  encode_checkpoint_failed checkpoint_mismatch : CheckpointError
  replay_guard : GuardError → CheckpointError
  signing_failed : CheckpointError
  bad_signature_length : ℕ → CheckpointError

-- The loop over the entries, from index `i` on.
pub check_entries : ℕ → List BridgeValidator → Result CheckpointError (Unit {0})
check_entries i [] = ok tt
check_entries i (v ∷ vs) = do
  ensure (length v.ethereum_address == 20) (bad_address i (length v.ethereum_address))
  ensure (not (v.power == 0)) (zero_power i)
  check_entries (i + 1) vs

pub check_format : CheckpointRequest → Result CheckpointError (Unit {0})
unfolding check_entries
check_format req = do
  ensure (length req.domain_separator == 32) (bad_domain_separator (length req.domain_separator))
  ensure (length req.validator_set_hash == 32)
      (bad_validator_set_hash (length req.validator_set_hash))
  ensure (length req.expected_checkpoint == 32)
      (bad_expected_checkpoint (length req.expected_checkpoint))
  ensure (not (length req.validator_set == 0)) empty_validator_set
  ensure (not (req.chain_id == [])) empty_chain_id
  check_entries 0 req.validator_set

-- `totalPower += v.Power`, in 64 bits
unfoldable pub total_power : ℕ → List BridgeValidator → ℕ
total_power total [] = total
total_power total (v ∷ vs) = total_power ((total + v.power) % u64_limit) vs

unfoldable pub want_threshold : List BridgeValidator → ℕ
want_threshold vs = total_power 0 vs * 2 % u64_limit / 3

module _ (c : Crypto) (self_evm_addr : Bytes) where
  pub is_member : List BridgeValidator → Bool
  is_member [] = false
  is_member (v ∷ vs) = c.bytes_to_address v.ethereum_address == self_evm_addr || is_member vs

  -- Steps 3 to 6, for the sorted set and its hash.
  pub check_content :
      CheckpointRequest → List BridgeValidator → Bytes → Result CheckpointError Bytes
  unfolding is_member
  check_content req vs valset_hash = do
    ensure (want_threshold vs == req.power_threshold)
        (threshold_mismatch (want_threshold vs) req.power_threshold)
    elim (compute_domain_separator c req.chain_id) [
      | none ↦ err domain_failed
      | some domain_sep ↦ do
        ensure (domain_sep == req.domain_separator) domain_mismatch
        ensure (is_member vs) not_a_member
        elim (encode_valset_checkpoint c domain_sep req.power_threshold req.validator_timestamp
            valset_hash) [
              | none ↦ err encode_checkpoint_failed
              | some checkpoint ↦ do
                ensure (checkpoint == req.expected_checkpoint) checkpoint_mismatch
                ok checkpoint
            ]
    ]

  -- Steps 1 to 6: the recomputed checkpoint.
  unfoldable pub verify_checkpoint : CheckpointRequest → Result CheckpointError Bytes
  unfolding check_format check_content
  verify_checkpoint req = do
    check_format req
    elim (encode_and_hash_validator_set c (sort_bridge_validators req.validator_set)) [
      | none ↦ err encode_set_failed
      | some (encoded, valset_hash) ↦ do
        ensure (valset_hash == req.validator_set_hash) valset_hash_mismatch
        check_content req (sort_bridge_validators req.validator_set) valset_hash
    ]

-- The server's state that the call changes, with the digests given to the backend.
pub record ServerState : Type 0 where
  pub guard : CheckpointReplayGuard
  pub disk : Disk
  pub asked : List Bytes

-- What the environment does during one call: which file calls fail in the two writes of the guard,
-- and what the backend's `SignRaw` answers, `none` for an error.
pub record Surroundings : Type 0 where
  pub advance_fails : WriteStep → Bool
  pub record_fails : WriteStep → Bool
  pub sign_raw : Bytes → Option Bytes

abbrev pub CheckpointResult : Type 0
CheckpointResult = Result CheckpointError CheckpointResponse

-- The answer when the guard has refused to advance.
unfoldable pub answer_refused : CheckpointReplayGuard → ℕ → Bytes → GuardError → CheckpointResult
answer_refused g ts checkpoint (replay_rejected asked_ts mark) =
    elim (cached_signature g ts checkpoint) [
      | some sig ↦ ok (record { signature = sig; checkpoint = checkpoint })
      | none ↦ err (replay_guard (replay_rejected asked_ts mark))
    ]
answer_refused g ts checkpoint e = err (replay_guard e)

module _ (c : Crypto) (codec : JsonCodec) where
  -- Step 8, and the memo. A failure to persist the memo is only logged.
  unfoldable pub sign_verified :
      Surroundings → ServerState → ℕ → Bytes → ServerState × CheckpointResult
  sign_verified env st ts checkpoint =
      let digest = c.sha256 checkpoint in
      let st' = record st { asked = digest ∷ st.asked } in
      elim (env.sign_raw digest) [
        | none ↦ (st', err signing_failed)
        | some sig ↦
            if not (length sig == 64)
            then (st', err (bad_signature_length (length sig)))
            else let ((g, d), failure) =
                record_signature codec env.record_fails st.disk st.guard ts checkpoint sig in
              (
                record st' { guard = g; disk = d },
                ok (record { signature = sig; checkpoint = checkpoint }),
              )
      ]

  -- What follows the guard's answer.
  unfoldable pub after_guard :
      Surroundings
      → ServerState
      → ℕ
      → Bytes
      → (CheckpointReplayGuard × Disk) × Option GuardError
      → ServerState × CheckpointResult
  after_guard env st ts checkpoint ((g, d), some e) =
      (record st { guard = g; disk = d }, answer_refused g ts checkpoint e)
  after_guard env st ts checkpoint ((g, d), none) =
      sign_verified env (record st { guard = g; disk = d }) ts checkpoint

  -- Steps 7 and 8.
  unfoldable pub guard_and_sign :
      Surroundings → ServerState → ℕ → Bytes → ServerState × CheckpointResult
  unfolding after_guard
  guard_and_sign env st ts checkpoint =
      after_guard env st ts checkpoint
        (check_and_advance codec env.advance_fails st.disk st.guard ts)

  unfoldable pub sign_bridge_checkpoint :
      Bytes → Surroundings → ServerState → CheckpointRequest → ServerState × CheckpointResult
  sign_bridge_checkpoint self_evm_addr env st req = elim (verify_checkpoint c self_evm_addr req) [
    | err e ↦ (st, err e)
    | ok checkpoint ↦ guard_and_sign env st req.validator_timestamp checkpoint
  ]
