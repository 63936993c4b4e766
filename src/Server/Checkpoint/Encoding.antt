-- ===== src/Server/Checkpoint/Encoding.antt =====
-- What the encodings of server/checkpoint.go say of what went into them.
use bridge_remote_signer.Base.{
  All, Bytes, List, Option-cases, [], ap, append_inj, ap₂, arith, bytes_dec, inl, inr, length,
  length-append, length-take, refl, replicate, some, subst, sym, take, take_of_append, ℕ, ◌*◌, ◌++◌,
  ◌<◌, ◌∙◌, ◌∷◌, ◌≡◌, ◌≢◌, ◌≤◌, ◌⊎◌,
}
use bridge_remote_signer.Text.{u64_limit}
use bridge_remote_signer.Server.Crypto.{
  AbiArg, Crypto, address, uint256, bytes32, dynamic_bytes, text,
}
use bridge_remote_signer.Server.Checkpoint.{
  BridgeValidator, word, fixed32, encode_validators, encode_and_hash_validator_set,
  encode_valset_checkpoint,
}

-- An argument of one word, with a number of 64 bits.
abbrev pub IsWord : AbiArg → Type 0
IsWord (address b) = length b ≡ 20
IsWord (uint256 n) = n < u64_limit
IsWord (bytes32 b) = length b ≡ 32
IsWord (dynamic_bytes b) = ⊥
IsWord (text b) = ⊥

-- An argument as Go hands it over: of one word, or of any length.
abbrev pub IsArg : AbiArg → Type 0
IsArg (dynamic_bytes b) = Unit
IsArg (text b) = Unit
IsArg a = IsWord a

abbrev pub HaveSameTypes : List AbiArg → List AbiArg → Type 0
HaveSameTypes [] [] = Unit
HaveSameTypes (address b ∷ xs) (address b' ∷ ys) = HaveSameTypes xs ys
HaveSameTypes (uint256 n ∷ xs) (uint256 n' ∷ ys) = HaveSameTypes xs ys
HaveSameTypes (bytes32 b ∷ xs) (bytes32 b' ∷ ys) = HaveSameTypes xs ys
HaveSameTypes _ _ = ⊥

-- What the ABI promises: any argument takes a word of 32 bytes at least, and a static one just that.
-- Static arguments of the same types are told apart by their encodings. An address of 20 bytes is taken as it is.
pub record IsAbi (c : Crypto) : Type 0 where
  pub as_it_is : (b : Bytes) → length b ≡ 20 → c.bytes_to_address b ≡ b
  pub sized :
      (args : List AbiArg) (e : Bytes)
      → All IsWord args
      → c.pack args ≡ some e
      → length e ≡ 32 * length args
  pub headed :
      (args : List AbiArg) (e : Bytes)
      → All IsArg args
      → c.pack args ≡ some e
      → 32 * length args ≤ length e
  pub injective :
      (xs ys : List AbiArg) (e : Bytes)
      → All IsWord xs
      → All IsWord ys
      → HaveSameTypes xs ys
      → c.pack xs ≡ some e
      → c.pack ys ≡ some e
      → xs ≡ ys

-- Two different byte strings with the same hash, of which each is one of the given kind.
abbrev pub Collision : (Bytes → Bytes) → (Bytes → Type 0) → (Bytes → Type 0) → Type 0
Collision hash P Q = (x : Bytes) × (y : Bytes) × P x × Q y × (x ≢ y) × (hash x ≡ hash y)

pub same-Collision :
    (hash : Bytes → Bytes) (P Q : Bytes → Type 0) (x y : Bytes)
    → P x
    → Q y
    → hash x ≡ hash y
    → Collision hash P Q ⊎ (x ≡ y)
same-Collision hash P Q x y p q e = elim (bytes_dec x y) [
  | yes same ↦ inr same
  | no apart ↦ inl (x, y, p, q, apart, e)
]

-- What is hashed for a set.
abbrev pub IsSetEncoding : Crypto → List BridgeValidator → Bytes → Type 0
IsSetEncoding c vs x = encode_and_hash_validator_set c vs ≡ some (x, c.keccak256 x)

pub length-fixed32 : (b : Bytes) → length (fixed32 b) ≡ 32
unfolding fixed32
length-fixed32 b =
    omega (arith, length-take 32 (b ++ replicate 32 0), length-append b (replicate 32 0))

fixed32_of_word : (b : Bytes) → length b ≡ 32 → fixed32 b ≡ b
unfolding fixed32
fixed32_of_word b l =
    subst (λ n. take n (b ++ replicate 32 0) ≡ b) l (take_of_append b (replicate 32 0))

length-words : (n : ℕ) → length (word 32 ++ word n) ≡ 64
unfolding word
length-words n = refl

abbrev pub IsProperEntry : BridgeValidator → Type 0
IsProperEntry v = (length v.ethereum_address ≡ 20) × (v.power < u64_limit)

abbrev entry_args : BridgeValidator → List AbiArg
entry_args v = address v.ethereum_address ∷ uint256 v.power ∷ []

abbrev pub checkpoint_args : Bytes → ℕ → ℕ → Bytes → List AbiArg
checkpoint_args d threshold ts hash = bytes32 d ∷ uint256 threshold ∷ uint256 ts ∷ bytes32 hash ∷ []

module _ (c : Crypto) (abi : IsAbi c) where
  entry_args-IsWord : (v : BridgeValidator) → IsProperEntry v → All IsWord (entry_args v)
  entry_args-IsWord v (a, p) = (a, (p, tt))

  -- The encoding of a set is the word pair of its first entry and the encoding of the others.
  encode_validators_inv :
      (v : BridgeValidator) (vs : List BridgeValidator) (e : Bytes)
      → IsProperEntry v
      → encode_validators c (v ∷ vs) ≡ some e
      → (pair : Bytes) × (rest : Bytes) × (c.pack (entry_args v) ≡ some pair)
        × (encode_validators c vs ≡ some rest)
        × (e ≡ pair ++ rest)
        × (length pair ≡ 64)
  unfolding encode_validators
  encode_validators_inv v vs e proper h =
      let same = abi.as_it_is v.ethereum_address proper.0 in
      let args = c.pack (address (c.bytes_to_address v.ethereum_address) ∷ uint256 v.power ∷ []) in
      elim (Option-cases args) [
        | inl bad ↦ absurd (ground arith)
        | inr (pair, good) ↦ elim (Option-cases (encode_validators c vs)) [
          | inl bad ↦ absurd (ground arith)
          | inr (rest, others) ↦
              let packed : c.pack (entry_args v) ≡ some pair =
                subst (λ a. c.pack (address a ∷ uint256 v.power ∷ []) ≡ some pair) same good in
              (
                pair,
                rest,
                packed,
                others,
                ground arith,
                abi.sized (entry_args v) pair (entry_args-IsWord v proper) packed,
              )
        ]
      ]

  not_empty :
      (w : BridgeValidator) (ws : List BridgeValidator) (e : Bytes)
      → IsProperEntry w
      → encode_validators c (w ∷ ws) ≡ some e
      → e ≢ []
  not_empty w ws e proper h none_left =
      let (pair, rest, packed, others, cut, sized) = encode_validators_inv w ws e proper h in
      let empty = ap length (sym cut ∙ none_left) in
      omega (arith, length-append pair rest, empty, sized)

  entry_args-inj : (v w : BridgeValidator) → entry_args v ≡ entry_args w → v ≡ w
  entry_args-inj v w e =
      let a : v.ethereum_address ≡ w.ethereum_address = cc in
      let p : v.power ≡ w.power = cc in ap₂ (λ a p. record { ethereum_address = a; power = p }) a p

  encode_validators-inj :
      (vs ws : List BridgeValidator) (e : Bytes)
      → All IsProperEntry vs
      → All IsProperEntry ws
      → encode_validators c vs ≡ some e
      → encode_validators c ws ≡ some e
      → vs ≡ ws
  unfolding encode_validators
  encode_validators-inj [] [] e hv hw p q = refl
  encode_validators-inj [] (w ∷ ws) e hv hw p q = absurd (not_empty w ws e hw.0 q (ground arith))
  encode_validators-inj (v ∷ vs) [] e hv hw p q = absurd (not_empty v vs e hv.0 p (ground arith))
  encode_validators-inj (v ∷ vs) (w ∷ ws) e hv hw p q =
      let (pair, rest, packed, others, cut, sized) = encode_validators_inv v vs e hv.0 p in
      let (pair', rest', packed', others', cut', sized') = encode_validators_inv w ws e hw.0 q in
      let (same, same_rest) =
        append_inj pair pair' rest rest' (sized ∙ sym sized') (sym cut ∙ cut') in
      let entries =
        abi.injective (entry_args v) (entry_args w) pair (entry_args-IsWord v hv.0)
          (entry_args-IsWord w hw.0) tt packed (packed' ∙ ap some (sym same)) in
      let tail =
        encode_validators-inj vs ws rest hv.1 hw.1 others (others' ∙ ap some (sym same_rest)) in
      ap₂ ◌∷◌ (entry_args-inj v w entries) tail

  -- The two words in front have a fixed size.
  pub encode_and_hash-inj :
      (vs ws : List BridgeValidator) (x y hash : Bytes)
      → All IsProperEntry vs
      → All IsProperEntry ws
      → encode_and_hash_validator_set c vs ≡ some (x, hash)
      → encode_and_hash_validator_set c ws ≡ some (y, hash)
      → Collision c.keccak256 (IsSetEncoding c vs) (IsSetEncoding c ws) ⊎ (vs ≡ ws)
  unfolding encode_and_hash_validator_set
  encode_and_hash-inj vs ws x y hash hv hw p q = elim (Option-cases (encode_validators c vs)) [
    | inl bad ↦ absurd (ground arith)
    | inr (e, good) ↦ elim (Option-cases (encode_validators c ws)) [
      | inl bad ↦ absurd (ground arith)
      | inr (e', good') ↦
          let whole = word 32 ++ word (length vs) ++ e in
          let whole' = word 32 ++ word (length ws) ++ e' in
          let h : c.keccak256 whole ≡ hash = ground arith in
          let h' : c.keccak256 whole' ≡ hash = ground arith in
          let p' : IsSetEncoding c vs whole = rw (good, encode_and_hash_validator_set) refl in
          let q' : IsSetEncoding c ws whole' = rw (good', encode_and_hash_validator_set) refl in
          elim (same-Collision c.keccak256 (IsSetEncoding c vs) (IsSetEncoding c ws) whole whole' p'
            q' (h ∙ sym h')) [
              | inl collision ↦ inl collision
              | inr same ↦
                  let (_, rest) =
                    append_inj (word 32 ++ word (length vs)) (word 32 ++ word (length ws)) e e'
                      (length-words (length vs) ∙ sym (length-words (length ws))) same in
                  inr (encode_validators-inj vs ws e hv hw good (good' ∙ ap some (sym rest)))
            ]
    ]
  ]

  pub encode_valset_checkpoint_inv :
      (d : Bytes) (threshold ts : ℕ) (hash checkpoint : Bytes)
      → length d ≡ 32
      → length hash ≡ 32
      → encode_valset_checkpoint c d threshold ts hash ≡ some checkpoint
      → (e : Bytes) × (c.pack (checkpoint_args d threshold ts hash) ≡ some e)
        × (c.keccak256 e ≡ checkpoint)
  unfolding encode_valset_checkpoint
  encode_valset_checkpoint_inv d threshold ts hash checkpoint ld lh h =
      let args = checkpoint_args (fixed32 d) threshold ts (fixed32 hash) in
      let same : args ≡ checkpoint_args d threshold ts hash =
        ap₂ (λ x y. checkpoint_args x threshold ts y) (fixed32_of_word d ld)
          (fixed32_of_word hash lh) in
      elim (Option-cases (c.pack args)) [
        | inl bad ↦ absurd (ground arith)
        | inr (e, good) ↦ (e, sym (ap c.pack same) ∙ good, ground arith)
      ]
