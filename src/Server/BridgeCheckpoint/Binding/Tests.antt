-- ===== src/Server/BridgeCheckpoint/Binding/Tests.antt =====
-- The words of the ABI for one-word arguments, and two orders of one validator set.
use bridge_remote_signer.Base.{
  All, Bytes, List, [], ap, append_inj, ap₂, arith, bytes_dec, length, length-append, ok, refl,
  replicate, some, subst, suc, sym, ℕ, ◌*◌, ◌++◌, ◌+◌, ◌<◌, ◌∙◌, ◌∷◌, ◌≡◌, ◌≤◌, ◌⊎◌,
}
use bridge_remote_signer.Text.{u64_limit}
use bridge_remote_signer.Server.Crypto.{
  AbiArg, Crypto, address, uint256, bytes32, dynamic_bytes, text,
}
use bridge_remote_signer.Server.Samples.{crypto}
use bridge_remote_signer.Server.Checkpoint.{
  word, fixed32, encode_validators, encode_and_hash_validator_set, encode_valset_checkpoint,
  sort_bridge_validators, insert_sorted, less, bytes_ltb, compute_domain_separator,
}
use bridge_remote_signer.Server.Checkpoint.Encoding.{IsWord, IsArg, HaveSameTypes, IsAbi, Collision}
use bridge_remote_signer.Server.BridgeCheckpoint.{
  CheckpointRequest, verify_checkpoint, check_format, check_entries, check_content, is_member,
  want_threshold, total_power,
}
use bridge_remote_signer.Server.BridgeCheckpoint.Tests.{request, domain, self_address}
use bridge_remote_signer.Server.BridgeCheckpoint.Binding.{
  IsHashed, Is64Bit, SayTheSame, verify_checkpoint-SayTheSame,
}

abbrev abi_word : AbiArg → Bytes
abi_word (address b) = replicate 12 0 ++ b
abi_word (uint256 n) = word n
abi_word (bytes32 b) = b
abi_word (dynamic_bytes b) = word (length b) ++ b
abi_word (text b) = word (length b) ++ b

abbrev abi_words : List AbiArg → Bytes
abi_words [] = []
abi_words (a ∷ args) = abi_word a ++ abi_words args

abbrev pub abi_crypto : Crypto
abi_crypto = record crypto { pack = λ args. some (abi_words args) }

length-abi_word : (a : AbiArg) → IsWord a → length (abi_word a) ≡ 32
unfolding word
length-abi_word (address b) h =
    ap (λ n. suc (suc (suc (suc (suc (suc (suc (suc (suc (suc (suc (suc n)))))))))))) h
length-abi_word (uint256 n) h = refl
length-abi_word (bytes32 b) h = h
length-abi_word (dynamic_bytes b) h = absurd h
length-abi_word (text b) h = absurd h

length-abi_words :
    (args : List AbiArg) → All IsWord args → length (abi_words args) ≡ 32 * length args
length-abi_words [] h = refl
length-abi_words (a ∷ args) h = omega (
  arith,
  length-append (abi_word a) (abi_words args),
  length-abi_word a h.0,
  length-abi_words args h.1,
)

-- The number in a word.
abbrev from_word : ℕ → Bytes → ℕ
from_word acc [] = acc
from_word acc (b ∷ bs) = from_word (acc * 256 + b) bs

from_word-word : (n : ℕ) → n < u64_limit → from_word 0 (word n) ≡ n
unfolding word
from_word-word n h = omega arith

word-inj : (n m : ℕ) → n < u64_limit → m < u64_limit → word n ≡ word m → n ≡ m
word-inj n m hn hm e = sym (from_word-word n hn) ∙ ap (from_word 0) e ∙ from_word-word m hm

abi_word-headed : (a : AbiArg) → IsArg a → 32 ≤ length (abi_word a)
unfolding word
abi_word-headed (address b) h = omega (arith, length-abi_word (address b) h)
abi_word-headed (uint256 n) h = omega (arith, length-abi_word (uint256 n) h)
abi_word-headed (bytes32 b) h = omega (arith, length-abi_word (bytes32 b) h)
abi_word-headed (dynamic_bytes b) h = omega arith
abi_word-headed (text b) h = omega arith

abi_words-headed :
    (args : List AbiArg) → All IsArg args → 32 * length args ≤ length (abi_words args)
unfolding word
abi_words-headed [] h = omega arith
abi_words-headed (a ∷ args) h = omega (
  arith,
  length-append (abi_word a) (abi_words args),
  abi_word-headed a h.0,
  abi_words-headed args h.1,
)

-- The first words are the same, and so are the others.
cut_word :
    (a b : AbiArg) (xs ys : List AbiArg)
    → IsWord a
    → IsWord b
    → abi_words (a ∷ xs) ≡ abi_words (b ∷ ys)
    → (abi_word a ≡ abi_word b) × (abi_words xs ≡ abi_words ys)
cut_word a b xs ys ha hb e =
    append_inj (abi_word a) (abi_word b) (abi_words xs) (abi_words ys)
      (length-abi_word a ha ∙ sym (length-abi_word b hb)) e

abi_words-inj :
    (xs ys : List AbiArg)
    → All IsWord xs
    → All IsWord ys
    → HaveSameTypes xs ys
    → abi_words xs ≡ abi_words ys
    → xs ≡ ys
abi_words-inj [] [] hx hy t e = refl
abi_words-inj (address b ∷ xs) (address b' ∷ ys) hx hy t e =
    let (same, rest) = cut_word (address b) (address b') xs ys hx.0 hy.0 e in
    let (_, same_address) = append_inj (replicate 12 0) (replicate 12 0) b b' refl same in
    ap₂ (λ b xs. address b ∷ xs) same_address (abi_words-inj xs ys hx.1 hy.1 t rest)
abi_words-inj (uint256 n ∷ xs) (uint256 n' ∷ ys) hx hy t e =
    let (same, rest) = cut_word (uint256 n) (uint256 n') xs ys hx.0 hy.0 e in
    ap₂ (λ n xs. uint256 n ∷ xs) (word-inj n n' hx.0 hy.0 same)
      (abi_words-inj xs ys hx.1 hy.1 t rest)
abi_words-inj (bytes32 b ∷ xs) (bytes32 b' ∷ ys) hx hy t e =
    let (same, rest) = cut_word (bytes32 b) (bytes32 b') xs ys hx.0 hy.0 e in
    ap₂ (λ b xs. bytes32 b ∷ xs) same (abi_words-inj xs ys hx.1 hy.1 t rest)
abi_words-inj _ _ hx hy t e = absurd t

pub abi_crypto-IsAbi : IsAbi abi_crypto
abi_crypto-IsAbi = record {
  as_it_is = λ b l. refl;
  sized = λ args e h made.
      let same : abi_words args ≡ e = ground arith in
      sym (ap length same) ∙ length-abi_words args h;
  headed = λ args e h made.
      let same : abi_words args ≡ e = ground arith in
      subst (λ e. 32 * length args ≤ length e) same (abi_words-headed args h);
  injective = λ xs ys e hx hy t made made'. abi_words-inj xs ys hx hy t cc;
}

-- The entries of `request`, the other way around.
abbrev turned_request : CheckpointRequest
turned_request = record request {
  validator_set =
      record { ethereum_address = self_address; power = 7 }
      ∷ record { ethereum_address = replicate 20 3; power = 2 }
      ∷ [];
}

pub verified : verify_checkpoint abi_crypto self_address request ≡ ok domain
unfolding verify_checkpoint check_format check_entries check_content is_member
    sort_bridge_validators insert_sorted less bytes_ltb encode_and_hash_validator_set
    encode_validators word compute_domain_separator fixed32 encode_valset_checkpoint want_threshold
    total_power bytes_dec
verified = refl

turned_verified : verify_checkpoint abi_crypto self_address turned_request ≡ ok domain
unfolding verify_checkpoint check_format check_entries check_content is_member
    sort_bridge_validators insert_sorted less bytes_ltb encode_and_hash_validator_set
    encode_validators word compute_domain_separator fixed32 encode_valset_checkpoint want_threshold
    total_power bytes_dec
turned_verified = refl

pub request-Is64Bit : Is64Bit request
request-Is64Bit = record {
  threshold = omega arith;
  timestamp = omega arith;
  powers = (omega arith, (omega arith, tt));
}

turned_request-Is64Bit : Is64Bit turned_request
turned_request-Is64Bit = record {
  threshold = omega arith;
  timestamp = omega arith;
  powers = (omega arith, (omega arith, tt));
}

verify_checkpoint-SayTheSame_example :
    Collision abi_crypto.keccak256
      (IsHashed abi_crypto request)
      (IsHashed abi_crypto turned_request)
    ⊎ SayTheSame request turned_request
verify_checkpoint-SayTheSame_example =
    verify_checkpoint-SayTheSame abi_crypto abi_crypto-IsAbi self_address self_address request
      turned_request domain request-Is64Bit turned_request-Is64Bit verified turned_verified
