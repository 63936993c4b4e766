-- ===== src/Server/Checkpoint.antt =====
-- server/checkpoint.go: the canonical order of a validator set, its encoding, the domain separator
-- and the checkpoint. `binary.BigEndian` and `sort.SliceStable` are written out; an insertion sort
-- that keeps the order of equal entries gives what any stable sort gives.
pub mod Order
pub mod Encoding
use bridge_remote_signer.Server.Crypto.{Crypto, address, uint256, bytes32, text}
use bridge_remote_signer.Base.{
  Bool, Bytes, List, Option, [], ascii, false, if◌then◌else◌, length, ltb, none, replicate, some,
  suc, take, true, zero, ℕ, ◌%◌, ◌++◌, ◌/◌, ◌==◌, ◌^◌, ◌∷◌, bytes_eq, nat_eq,
}

pub record BridgeValidator : Type 0 where
  pub ethereum_address : Bytes
  pub power : ℕ

-- `bytes.Compare(a, b) < 0`
unfoldable pub bytes_ltb : Bytes → Bytes → Bool
bytes_ltb xs [] = false
bytes_ltb [] (y ∷ ys) = true
bytes_ltb (x ∷ xs) (y ∷ ys) = if x == y then bytes_ltb xs ys else ltb x y

-- The comparison that the sort is given.
unfoldable pub less : BridgeValidator → BridgeValidator → Bool
less v w =
    if v.power == w.power
    then bytes_ltb v.ethereum_address w.ethereum_address
    else ltb w.power v.power

-- Before the entries that are not less, so that equal ones keep their order.
unfoldable pub insert_sorted : BridgeValidator → List BridgeValidator → List BridgeValidator
insert_sorted v [] = v ∷ []
insert_sorted v (w ∷ ws) = if less w v then w ∷ insert_sorted v ws else v ∷ w ∷ ws

unfoldable pub sort_bridge_validators : List BridgeValidator → List BridgeValidator
sort_bridge_validators [] = []
sort_bridge_validators (v ∷ vs) = insert_sorted v (sort_bridge_validators vs)

-- The last `k` bytes of `n`, the most significant first.
abbrev pub big_endian : ℕ → ℕ → Bytes
big_endian zero n = []
big_endian (suc k) n = (n / 256 ^ k % 256) ∷ big_endian k n

-- A zeroed word with `n` put as a 64-bit number at its byte 24.
unfoldable pub word : ℕ → Bytes
word n = replicate 24 0 ++ big_endian 8 n

-- `copy(fixed[:], b)`, for a zeroed `fixed` of 32 bytes
unfoldable pub fixed32 : Bytes → Bytes
fixed32 b = take 32 (b ++ replicate 32 0)

abbrev pub mainnet_chain_id : Bytes
mainnet_chain_id = ascii "tellor-1"

module _ (c : Crypto) where
  unfoldable pub encode_validators : List BridgeValidator → Option Bytes
  encode_validators [] = some []
  encode_validators (v ∷ vs) =
      elim (c.pack (address (c.bytes_to_address v.ethereum_address) ∷ uint256 v.power ∷ [])) [
        | none ↦ none
        | some encoded ↦ elim (encode_validators vs) [
          | none ↦ none
          | some rest ↦ some (encoded ++ rest)
        ]
      ]

  -- The encoding and its hash.
  unfoldable pub encode_and_hash_validator_set : List BridgeValidator → Option (Bytes × Bytes)
  encode_and_hash_validator_set vs = elim (encode_validators vs) [
    | none ↦ none
    | some encoded ↦
        let final = word 32 ++ word (length vs) ++ encoded in some (final, c.keccak256 final)
  ]

  unfoldable pub compute_domain_separator : Bytes → Option Bytes
  compute_domain_separator chain_id =
      if chain_id == mainnet_chain_id
      then some (fixed32 (ascii "checkpoint"))
      else elim (c.pack (text (ascii "checkpoint") ∷ text chain_id ∷ [])) [
        | none ↦ none
        | some encoded ↦ some (c.keccak256 encoded)
      ]

  unfoldable pub encode_valset_checkpoint : Bytes → ℕ → ℕ → Bytes → Option Bytes
  encode_valset_checkpoint domain_sep power_threshold validator_timestamp validator_set_hash =
      elim (c.pack (
        bytes32 (fixed32 domain_sep)
        ∷ uint256 power_threshold
        ∷ uint256 validator_timestamp
        ∷ bytes32 (fixed32 validator_set_hash)
        ∷ [])) [ none ↦ none | some encoded ↦ some (c.keccak256 encoded) ]
