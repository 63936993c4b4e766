-- ===== src/Server/BridgeCheckpoint/Verify.antt =====
-- The checks of a checkpoint request accept exactly the genuine ones.

use bridge_remote_signer.Text.{u64_limit}
use bridge_remote_signer.Server.Crypto.{Crypto}
use bridge_remote_signer.Server.Checkpoint.{
  BridgeValidator, insert_sorted, sort_bridge_validators, encode_and_hash_validator_set,
  compute_domain_separator, encode_valset_checkpoint,
}
use bridge_remote_signer.Server.BridgeCheckpoint.{
  CheckpointRequest, check_entries, check_format, want_threshold, total_power, check_content,
  is_member, verify_checkpoint,
}
use bridge_remote_signer.Base.{
  All, Any, Bytes, List, Option-cases, [], arith, inl, inr, length, ok, refl, some, sym, true, ℕ,
  ◌%◌, ◌*◌, ◌+◌, ◌/◌, ◌<◌, ◌^◌, ◌↔◌, ◌∙◌, ◌∷◌, ◌≡◌, ◌≢◌,
}

-- An entry with an address of 20 bytes and some power.
pub record IsEntry (v : BridgeValidator) : Type 0 where
  pub address : length v.ethereum_address ≡ 20
  pub power : v.power ≢ 0

pub record IsFormatted (req : CheckpointRequest) : Type 0 where
  pub domain_length : length req.domain_separator ≡ 32
  pub hash_length : length req.validator_set_hash ≡ 32
  pub checkpoint_length : length req.expected_checkpoint ≡ 32
  pub some_validator : req.validator_set ≢ []
  pub named : req.chain_id ≢ []
  pub entries : All IsEntry req.validator_set

check_entries-IsEntry :
    (i : ℕ) (vs : List BridgeValidator) → (check_entries i vs ≡ ok tt) ↔ All IsEntry vs
unfolding check_entries
check_entries-IsEntry i [] = ground arith
check_entries-IsEntry i (v ∷ vs) = (
  λ h. (
    record { address = ground arith; power = ground arith },
    ground (arith, check_entries-IsEntry (i + 1) vs),
  ),
  λ h. let a = h.0.address in let p = h.0.power in ground (arith, check_entries-IsEntry (i + 1) vs),
)

check_format-IsFormatted : (req : CheckpointRequest) → (check_format req ≡ ok tt) ↔ IsFormatted req
unfolding check_format
check_format-IsFormatted req = (
  λ h. record {
    domain_length = ground arith;
    hash_length = ground arith;
    checkpoint_length = ground arith;
    some_validator = ground arith;
    named = ground arith;
    entries = ground (arith, check_entries-IsEntry 0 req.validator_set);
  },
  λ v. ground (arith, (check_entries-IsEntry 0 req.validator_set).1 v.entries),
)

abbrev pub sum_power : List BridgeValidator → ℕ
sum_power [] = 0
sum_power (v ∷ vs) = v.power + sum_power vs

-- Two thirds of the power, where both the sum and its double wrap at 64 bits.
abbrev pub threshold_of : List BridgeValidator → ℕ
threshold_of vs = sum_power vs % u64_limit * 2 % u64_limit / 3

total_power-sum_power :
    (total : ℕ) (vs : List BridgeValidator)
    → total_power total vs % u64_limit ≡ (total + sum_power vs) % u64_limit
unfolding total_power
total_power-sum_power total [] = omega arith
total_power-sum_power total (v ∷ vs) =
    omega (arith, total_power-sum_power ((total + v.power) % u64_limit) vs)

total_power-lt :
    (total : ℕ) (vs : List BridgeValidator) → total < u64_limit → total_power total vs < u64_limit
unfolding total_power
total_power-lt total [] h = h
total_power-lt total (v ∷ vs) h = total_power-lt ((total + v.power) % u64_limit) vs (omega arith)

sum_power-insert_sorted :
    (v : BridgeValidator) (vs : List BridgeValidator)
    → sum_power (insert_sorted v vs) ≡ v.power + sum_power vs
unfolding insert_sorted
sum_power-insert_sorted v [] = refl
sum_power-insert_sorted v (w ∷ ws) = ground (arith, sum_power-insert_sorted v ws)

sum_power-sort : (vs : List BridgeValidator) → sum_power (sort_bridge_validators vs) ≡ sum_power vs
unfolding sort_bridge_validators
sum_power-sort [] = refl
sum_power-sort (v ∷ vs) =
    omega (arith, sum_power-insert_sorted v (sort_bridge_validators vs), sum_power-sort vs)

want_threshold-threshold_of :
    (vs : List BridgeValidator) → want_threshold (sort_bridge_validators vs) ≡ threshold_of vs
unfolding want_threshold
want_threshold-threshold_of vs = omega (
  arith,
  total_power-sum_power 0 (sort_bridge_validators vs),
  total_power-lt 0 (sort_bridge_validators vs),
  sum_power-sort vs,
)

-- Below half of the 64-bit range nothing wraps, and the threshold is two thirds of the power.
pub want_threshold_of_small :
    (vs : List BridgeValidator)
    → sum_power vs < 2 ^ 63
    → want_threshold (sort_bridge_validators vs) ≡ sum_power vs * 2 / 3
want_threshold_of_small vs h = omega (arith, want_threshold-threshold_of vs)

module _ (c : Crypto) (self_evm_addr : Bytes) where
  abbrev pub IsSelf : BridgeValidator → Type 0
  IsSelf v = c.bytes_to_address v.ethereum_address ≡ self_evm_addr

  is_member-Any :
      (vs : List BridgeValidator) → (is_member c self_evm_addr vs ≡ true) ↔ Any IsSelf vs
  unfolding is_member
  is_member-Any [] = ground arith
  is_member-Any (v ∷ vs) = ground (arith, is_member-Any vs)

  is_member-insert_sorted :
      (v : BridgeValidator) (vs : List BridgeValidator)
      → is_member c self_evm_addr (insert_sorted v vs) ≡ is_member c self_evm_addr (v ∷ vs)
  unfolding is_member insert_sorted
  is_member-insert_sorted v [] = refl
  is_member-insert_sorted v (w ∷ ws) = ground (arith, is_member-insert_sorted v ws)

  is_member-sort :
      (vs : List BridgeValidator)
      → is_member c self_evm_addr (sort_bridge_validators vs) ≡ is_member c self_evm_addr vs
  unfolding is_member sort_bridge_validators
  is_member-sort [] = refl
  is_member-sort (v ∷ vs) =
      ground (arith, is_member-insert_sorted v (sort_bridge_validators vs), is_member-sort vs)

  -- What a request must say for its checkpoint: each field is the one that follows from the
  -- others, and the signer's own address is in the set.
  pub record IsGenuine (req : CheckpointRequest) (checkpoint : Bytes) : Type 0 where
    pub formatted : IsFormatted req
    pub encoded : Bytes
    pub hashed :
        encode_and_hash_validator_set c (sort_bridge_validators req.validator_set)
        ≡ some (encoded, req.validator_set_hash)
    pub threshold : req.power_threshold ≡ threshold_of req.validator_set
    pub domain : compute_domain_separator c req.chain_id ≡ some req.domain_separator
    pub member : Any IsSelf req.validator_set
    pub recomputed :
        encode_valset_checkpoint c req.domain_separator req.power_threshold req.validator_timestamp
          req.validator_set_hash
        ≡ some checkpoint
    pub expected : checkpoint ≡ req.expected_checkpoint

  check_content_inv :
      (req : CheckpointRequest) (vs : List BridgeValidator) (hash checkpoint : Bytes)
      → check_content c self_evm_addr req vs hash ≡ ok checkpoint
      → (want_threshold vs ≡ req.power_threshold)
        × (compute_domain_separator c req.chain_id ≡ some req.domain_separator)
        × (is_member c self_evm_addr vs ≡ true)
        × (encode_valset_checkpoint c req.domain_separator req.power_threshold
              req.validator_timestamp hash
            ≡ some checkpoint)
        × (checkpoint ≡ req.expected_checkpoint)
  unfolding check_content
  check_content_inv req vs hash checkpoint h =
      elim (Option-cases (compute_domain_separator c req.chain_id)) [
        | inl e ↦ absurd (ground arith)
        | inr (d, e) ↦
            elim (Option-cases
              (encode_valset_checkpoint c d req.power_threshold req.validator_timestamp hash)) [
                | inl e' ↦ absurd (ground arith)
                | inr (ck, e') ↦ ground arith
              ]
      ]

  verify_sound :
      (req : CheckpointRequest) (checkpoint : Bytes)
      → verify_checkpoint c self_evm_addr req ≡ ok checkpoint
      → IsGenuine req checkpoint
  unfolding verify_checkpoint
  verify_sound req checkpoint h =
      elim (Option-cases
        (encode_and_hash_validator_set c (sort_bridge_validators req.validator_set))) [
          | inl e ↦ absurd (ground arith)
          | inr ((encoded, hash), e) ↦
              let format_ok : check_format req ≡ ok tt = ground arith in
              let same : hash ≡ req.validator_set_hash = ground arith in
              let content : check_content c self_evm_addr req
                    (sort_bridge_validators req.validator_set) hash
                  ≡ ok checkpoint =
                ground arith in
              let (t, d, m, r, x) = check_content_inv req _ hash checkpoint content in
              record {
                formatted = (check_format-IsFormatted req).0 format_ok;
                encoded = encoded;
                hashed = cc;
                threshold = cc (want_threshold-threshold_of req.validator_set);
                domain = d;
                member =
                    (is_member-Any req.validator_set).0
                      (sym (is_member-sort req.validator_set) ∙ m);
                recomputed = cc;
                expected = x;
              }
        ]

  verify_complete :
      (req : CheckpointRequest) (checkpoint : Bytes)
      → IsGenuine req checkpoint
      → verify_checkpoint c self_evm_addr req ≡ ok checkpoint
  unfolding verify_checkpoint check_content
  verify_complete req checkpoint v =
      let f = (check_format-IsFormatted req).1 v.formatted in
      let t : want_threshold (sort_bridge_validators req.validator_set) ≡ req.power_threshold =
        cc (want_threshold-threshold_of req.validator_set, v.threshold) in
      let m = is_member-sort req.validator_set ∙ (is_member-Any req.validator_set).1 v.member in
      let h = v.hashed in
      let d = v.domain in let r = v.recomputed in let x = v.expected in ground arith

  -- The checks pass exactly for a genuine request, and give the checkpoint that it describes.
  pub verify_checkpoint-IsGenuine :
      (req : CheckpointRequest) (checkpoint : Bytes)
      → (verify_checkpoint c self_evm_addr req ≡ ok checkpoint) ↔ IsGenuine req checkpoint
  verify_checkpoint-IsGenuine req checkpoint =
      (verify_sound req checkpoint, verify_complete req checkpoint)
