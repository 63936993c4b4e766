-- ===== src/Server/Separation.antt =====
-- server/attestation.go and server/checkpoint.go: both kinds of messages are signed with one key.
mod Tests
use bridge_remote_signer.Base.{
  All, Bytes, List, Option-cases, [], ap, arith, bytes_dec, inl, inr, length, ok, refl, some, sym,
  ◌<◌, ◌∙◌, ◌∷◌, ◌≡◌, ◌≢◌, ◌≤◌, ◌⊎◌,
}
use bridge_remote_signer.Text.{u64_limit}
use bridge_remote_signer.Server.Crypto.{AbiArg, Crypto, bytes32, dynamic_bytes, uint256}
use bridge_remote_signer.Server.Checkpoint.{fixed32}
use bridge_remote_signer.Server.Checkpoint.Encoding.{
  IsAbi, IsArg, Collision, same-Collision, length-fixed32, checkpoint_args,
  encode_valset_checkpoint_inv,
}
use bridge_remote_signer.Server.Attestation.{
  AttestationRequest, encode_oracle_attestation, verify_attestation,
  oracle_attestation_domain_separator,
}
use bridge_remote_signer.Server.Attestation.Laws.{verify_attestation_sound}
use bridge_remote_signer.Server.BridgeCheckpoint.{CheckpointRequest, verify_checkpoint}
use bridge_remote_signer.Server.BridgeCheckpoint.Verify.{verify_checkpoint-IsGenuine}
use bridge_remote_signer.Server.BridgeCheckpoint.Binding.{Is64Bit, IsHashed}

-- What the numbers of an attestation are in Go.
pub record Has64Bits (req : AttestationRequest) : Type 0 where
  pub timestamp : req.timestamp < u64_limit
  pub aggregate_power : req.aggregate_power < u64_limit
  pub previous_timestamp : req.previous_timestamp < u64_limit
  pub next_timestamp : req.next_timestamp < u64_limit
  pub attestation_timestamp : req.attestation_timestamp < u64_limit
  pub last_consensus_timestamp : req.last_consensus_timestamp < u64_limit

-- What `encode_oracle_attestation` packs.
abbrev pub attestation_args : AttestationRequest → List AbiArg
attestation_args req =
    bytes32 (fixed32 oracle_attestation_domain_separator)
    ∷ bytes32 (fixed32 req.query_id)
    ∷ dynamic_bytes req.value
    ∷ uint256 req.timestamp
    ∷ uint256 req.aggregate_power
    ∷ uint256 req.previous_timestamp
    ∷ uint256 req.next_timestamp
    ∷ bytes32 (fixed32 req.valset_checkpoint)
    ∷ uint256 req.attestation_timestamp
    ∷ uint256 req.last_consensus_timestamp
    ∷ []

-- A collision of either hash on what the two requests make it hash.
abbrev pub AnyCollision : Crypto → CheckpointRequest → Bytes → AttestationRequest → Bytes → Type 0
AnyCollision c r checkpoint a snapshot =
    Collision c.sha256 (λ x. x ≡ snapshot) (λ y. y ≡ checkpoint)
    ⊎ Collision c.keccak256 (λ x. c.pack (attestation_args a) ≡ some x) (IsHashed c r)

module _ (c : Crypto) (abi : IsAbi c) where
  -- Ten arguments take ten words.
  encode_oracle_attestation_inv :
      (req : AttestationRequest) (snapshot : Bytes)
      → Has64Bits req
      → encode_oracle_attestation c req ≡ some snapshot
      → (e : Bytes) × (c.pack (attestation_args req) ≡ some e)
        × (320 ≤ length e)
        × (c.keccak256 e ≡ snapshot)
  unfolding encode_oracle_attestation
  encode_oracle_attestation_inv req snapshot small h =
      let args = attestation_args req in
      let proper : All IsArg args = (
        length-fixed32 _,
        (
          length-fixed32 _,
          (
            tt,
            (
              small.timestamp,
              (
                small.aggregate_power,
                (
                  small.previous_timestamp,
                  (
                    small.next_timestamp,
                    (
                      length-fixed32 _,
                      (small.attestation_timestamp, (small.last_consensus_timestamp, tt)),
                    ),
                  ),
                ),
              ),
            ),
          ),
        ),
      ) in
      elim (Option-cases (c.pack args)) [
        | inl bad ↦ absurd (ground arith)
        | inr (e, good) ↦ (e, good, abi.headed args e proper good, ground arith)
      ]

  same_digests :
      (self : Bytes) (r : CheckpointRequest) (a : AttestationRequest) (checkpoint snapshot : Bytes)
      → Is64Bit r
      → Has64Bits a
      → verify_checkpoint c self r ≡ ok checkpoint
      → verify_attestation c a ≡ ok snapshot
      → c.sha256 snapshot ≡ c.sha256 checkpoint
      → AnyCollision c r checkpoint a snapshot
  same_digests self r a checkpoint snapshot small_r small_a passed_r passed_a same_digest =
      elim (same-Collision c.sha256 (λ x. x ≡ snapshot) (λ y. y ≡ checkpoint) snapshot checkpoint
        refl refl same_digest) [
          | inl collision ↦ inl collision
          | inr same ↦
              let g = (verify_checkpoint-IsGenuine c self r checkpoint).0 passed_r in
              let f = g.formatted in
              let (v, expected) = verify_attestation_sound c a snapshot passed_a in
              let (e, packed, made) =
                encode_valset_checkpoint_inv c abi r.domain_separator r.power_threshold
                  r.validator_timestamp r.validator_set_hash checkpoint f.domain_length
                  f.hash_length g.recomputed in
              let (e', packed', long, made') =
                encode_oracle_attestation_inv a a.expected_snapshot small_a v.recomputed in
              let short : length e ≡ 128 =
                abi.sized _ e
                  (f.domain_length, (small_r.threshold, (small_r.timestamp, (f.hash_length, tt))))
                  packed in
              inr (
                e',
                e,
                packed',
                inr packed,
                λ one. let l = ap length one in omega (arith, l, long, short),
                made' ∙ sym expected ∙ same ∙ sym made,
              )
        ]

  -- If the packer does what the ABI promises, then the digest that the backend is given for an
  -- oracle attestation that passes the checks is not the one that it is given for a bridge
  -- checkpoint that passes them, of requests with 64-bit numbers. Otherwise sha256 has the same
  -- hash for the snapshot and a checkpoint that differs from it, or keccak256 for the encodings.
  pub verify_attestation-verify_checkpoint :
      (self : Bytes) (r : CheckpointRequest) (a : AttestationRequest) (checkpoint snapshot : Bytes)
      → Is64Bit r
      → Has64Bits a
      → verify_checkpoint c self r ≡ ok checkpoint
      → verify_attestation c a ≡ ok snapshot
      → (c.sha256 snapshot ≢ c.sha256 checkpoint) ⊎ AnyCollision c r checkpoint a snapshot
  verify_attestation-verify_checkpoint self r a checkpoint snapshot small_r small_a passed_r
        passed_a =
      elim (bytes_dec (c.sha256 snapshot) (c.sha256 checkpoint)) [
        | yes same ↦
            inr (same_digests self r a checkpoint snapshot small_r small_a passed_r passed_a same)
        | no apart ↦ inl apart
      ]
