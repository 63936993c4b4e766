-- ===== src/Server/BridgeCheckpoint/Binding.antt =====
-- What a checkpoint of `SignBridgeCheckpoint` in server/server.go stands for.
pub mod Tests
use bridge_remote_signer.Base.{
  All, Bytes, List, [], ap, arith, inl, inr, ok, some, subst, sym, ◌<◌, ◌∙◌, ◌∷◌, ◌≡◌, ◌⊎◌,
}
use bridge_remote_signer.Text.{u64_limit}
use bridge_remote_signer.Server.Crypto.{Crypto}
use bridge_remote_signer.Server.Checkpoint.{BridgeValidator, sort_bridge_validators, insert_sorted}
use bridge_remote_signer.Server.Checkpoint.Order.{sort_bridge_validators_lem}
use bridge_remote_signer.Server.Checkpoint.Encoding.{
  IsSetEncoding, IsAbi, Collision, same-Collision, IsProperEntry, encode_and_hash-inj,
  checkpoint_args, encode_valset_checkpoint_inv,
}
use bridge_remote_signer.Server.BridgeCheckpoint.{CheckpointRequest, verify_checkpoint}
use bridge_remote_signer.Server.BridgeCheckpoint.Verify.{
  IsEntry, IsGenuine, verify_checkpoint-IsGenuine,
}
use mathlib.Core.List.{Permᴰ}
use mathlib.Core.List.Permᴰ

-- What the numbers of a request and of its entries are in Go.
pub record Is64Bit (req : CheckpointRequest) : Type 0 where
  pub threshold : req.power_threshold < u64_limit
  pub timestamp : req.validator_timestamp < u64_limit
  pub powers : All (λ (v : BridgeValidator). v.power < u64_limit) req.validator_set

-- The same fields that a checkpoint is made of, with the set in any order.
abbrev pub SayTheSame : CheckpointRequest → CheckpointRequest → Type 0
SayTheSame r r' =
    (r.domain_separator ≡ r'.domain_separator)
    × (r.validator_timestamp ≡ r'.validator_timestamp)
    × (r.power_threshold ≡ r'.power_threshold)
    × Permᴰ r.validator_set r'.validator_set

insert_sorted-All :
    (P : BridgeValidator → Type 0) (v : BridgeValidator) (vs : List BridgeValidator)
    → P v
    → All P vs
    → All P (insert_sorted v vs)
unfolding insert_sorted
insert_sorted-All P v [] h hs = (h, tt)
insert_sorted-All P v (w ∷ ws) h hs = ground (arith, insert_sorted-All P v ws h hs.1)

sort-All :
    (P : BridgeValidator → Type 0) (vs : List BridgeValidator)
    → All P vs
    → All P (sort_bridge_validators vs)
unfolding sort_bridge_validators
sort-All P [] h = tt
sort-All P (v ∷ vs) h = insert_sorted-All P v _ h.0 (sort-All P vs h.1)

proper_entries :
    (vs : List BridgeValidator)
    → All IsEntry vs
    → All (λ (v : BridgeValidator). v.power < u64_limit) vs
    → All IsProperEntry vs
proper_entries [] h p = tt
proper_entries (v ∷ vs) h p = ((h.0.address, p.0), proper_entries vs h.1 p.1)

same_fields :
    (r r' : CheckpointRequest)
    → checkpoint_args r.domain_separator r.power_threshold r.validator_timestamp
        r.validator_set_hash
      ≡ checkpoint_args r'.domain_separator r'.power_threshold r'.validator_timestamp
          r'.validator_set_hash
    → (r.domain_separator ≡ r'.domain_separator)
      × (r.power_threshold ≡ r'.power_threshold)
      × (r.validator_timestamp ≡ r'.validator_timestamp)
      × (r.validator_set_hash ≡ r'.validator_set_hash)
same_fields r r' e = (cc, cc, cc, cc)

same_sets :
    (vs ws : List BridgeValidator)
    → sort_bridge_validators vs ≡ sort_bridge_validators ws
    → Permᴰ vs ws
same_sets vs ws e =
    Permᴰ.trans (Permᴰ.symm (sort_bridge_validators_lem vs).0)
      (subst (λ l. Permᴰ l ws) (sym e) (sort_bridge_validators_lem ws).0)

-- What keccak256 is given for the set and for the checkpoint of a request.
abbrev pub IsHashed : Crypto → CheckpointRequest → Bytes → Type 0
IsHashed c r x =
    IsSetEncoding c (sort_bridge_validators r.validator_set) x
    ⊎ (c.pack (
          checkpoint_args r.domain_separator r.power_threshold r.validator_timestamp
            r.validator_set_hash)
        ≡ some x)

module _ (c : Crypto) (abi : IsAbi c) where
  genuine-SayTheSame :
      (self self' : Bytes) (r r' : CheckpointRequest) (checkpoint : Bytes)
      → Is64Bit r
      → Is64Bit r'
      → IsGenuine c self r checkpoint
      → IsGenuine c self' r' checkpoint
      → Collision c.keccak256 (IsHashed c r) (IsHashed c r') ⊎ SayTheSame r r'
  genuine-SayTheSame self self' r r' checkpoint small small' g g' =
      let f = g.formatted in
      let f' = g'.formatted in
      let (e, packed, made) =
        encode_valset_checkpoint_inv c abi r.domain_separator r.power_threshold
          r.validator_timestamp r.validator_set_hash checkpoint f.domain_length f.hash_length
          g.recomputed in
      let (e', packed', made') =
        encode_valset_checkpoint_inv c abi r'.domain_separator r'.power_threshold
          r'.validator_timestamp r'.validator_set_hash checkpoint f'.domain_length f'.hash_length
          g'.recomputed in
      elim (same-Collision c.keccak256 (IsHashed c r) (IsHashed c r') e e' (inr packed)
        (inr packed') (made ∙ sym made')) [
          | inl collision ↦ inl collision
          | inr same ↦
              let (d, threshold, ts, hash) = same_fields r r' (
                abi.injective _ _ e
                  (f.domain_length, (small.threshold, (small.timestamp, (f.hash_length, tt))))
                  (f'.domain_length, (small'.threshold, (small'.timestamp, (f'.hash_length, tt))))
                  tt packed (packed' ∙ ap some (sym same))) in
              elim (encode_and_hash-inj c abi (sort_bridge_validators r.validator_set)
                (sort_bridge_validators r'.validator_set) g.encoded g'.encoded r.validator_set_hash
                (sort-All IsProperEntry _ (proper_entries _ f.entries small.powers))
                (sort-All IsProperEntry _ (proper_entries _ f'.entries small'.powers)) g.hashed
                (g'.hashed ∙ ap (λ h. some (g'.encoded, h)) (sym hash))) [
                  | inl (x, y, p, q, apart, same_hash) ↦ inl (x, y, inl p, inl q, apart, same_hash)
                  | inr sets ↦ inr (d, ts, threshold, same_sets _ _ sets)
                ]
        ]

  -- If the packer does what the ABI promises, then two requests with 64-bit numbers that pass the
  -- checks with the same checkpoint, of one server or of two, say the same: the domain
  -- separator, the timestamp and the threshold are the same, and the validator sets are, up to their
  -- order. Otherwise two different byte strings that keccak256 was given for them have the same hash.
  pub verify_checkpoint-SayTheSame :
      (self self' : Bytes) (r r' : CheckpointRequest) (checkpoint : Bytes)
      → Is64Bit r
      → Is64Bit r'
      → verify_checkpoint c self r ≡ ok checkpoint
      → verify_checkpoint c self' r' ≡ ok checkpoint
      → Collision c.keccak256 (IsHashed c r) (IsHashed c r') ⊎ SayTheSame r r'
  verify_checkpoint-SayTheSame self self' r r' checkpoint small small' h h' =
      genuine-SayTheSame self self' r r' checkpoint small small'
        ((verify_checkpoint-IsGenuine c self r checkpoint).0 h)
        ((verify_checkpoint-IsGenuine c self' r' checkpoint).0 h')
