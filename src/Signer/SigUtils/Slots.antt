-- ===== src/Signer/SigUtils/Slots.antt =====
-- Two numbers of at most 32 bytes, packed right-aligned into the two halves of 64 bytes.
use bridge_remote_signer.Base.{
  Bytes, List, [], ap, arith, drop, leb, length, length-append, length-replicate, ok, refl,
  replicate, some, suc, take, true, zero, ℕ, ℤ, ◌++◌, ◌+◌, ◌-◌, ◌∷◌, ◌≡◌, ◌≤◌,
}
use mathlib.Core.List.{append_assoc}
use bridge_remote_signer.Signer.BigInt.{big_bytes, set_bytes, abs}
use bridge_remote_signer.Signer.BigInt.Laws.{set_bytes-big_bytes, set_bytes_from_zeros}
use bridge_remote_signer.Signer.SigUtils.{Curve, copy_right, pack_rs}

module _ {ℓ} {A : Type ℓ} where
  pub take-append :
      (n k : ℕ) (xs ys : List A) → n ≡ length xs + k → take n (xs ++ ys) ≡ xs ++ take k ys
  take-append n k [] ys h = let same_n : n ≡ k = omega arith in ap (λ j. take j ys) same_n
  take-append zero k (x ∷ xs) ys h = ground arith
  take-append (suc n) k (x ∷ xs) ys h =
      let rest : n ≡ length xs + k = omega arith in ap (x ∷◌) (take-append n k xs ys rest)

  pub drop-append : (n k : ℕ) (xs ys : List A) → n ≡ length xs + k → drop n (xs ++ ys) ≡ drop k ys
  drop-append n k [] ys h = let same_n : n ≡ k = omega arith in ap (λ j. drop j ys) same_n
  drop-append zero k (x ∷ xs) ys h = ground arith
  drop-append (suc n) k (x ∷ xs) ys h =
      let rest : n ≡ length xs + k = omega arith in drop-append n k xs ys rest

  take-replicate : (k n : ℕ) (a : A) → k ≤ n → take k (replicate n a) ≡ replicate k a
  take-replicate zero n a h = refl
  take-replicate (suc k) zero a h = ground arith
  take-replicate (suc k) (suc n) a h = ap (a ∷◌) (take-replicate k n a (omega arith))

  drop-replicate : (n k m : ℕ) (a : A) → n ≡ k + m → drop k (replicate n a) ≡ replicate m a
  drop-replicate n zero m a h = let same_n : n ≡ m = omega arith in ap (λ j. replicate j a) same_n
  drop-replicate zero (suc k) m a h = ground arith
  drop-replicate (suc n) (suc k) m a h = drop-replicate n k m a (omega arith)

-- 32 bytes, with zeros to the left
abbrev pub padded : Bytes → Bytes
padded b = replicate (32 - length b) 0 ++ b

pub length-padded : (b : Bytes) → length b ≤ 32 → length (padded b) ≡ 32
length-padded b h =
    rw (length-append (replicate (32 - length b) 0) b, length-replicate {A = ℕ} (32 - length b) 0)
      (omega arith)

abbrev pub word_of : ℤ → Bytes
word_of x = padded (big_bytes x)

pub set_bytes-word_of : (x : ℤ) → set_bytes (word_of x) ≡ abs x
set_bytes-word_of x =
    rw (set_bytes_from_zeros (32 - length (big_bytes x)) (big_bytes x)) (set_bytes-big_bytes x)

copy_right_lem :
    (pre src : Bytes) (n end : ℕ)
    → end ≡ length pre + 32
    → length src ≤ 32
    → copy_right (pre ++ replicate (32 + n) 0) end src ≡ some (pre ++ padded src ++ replicate n 0)
unfolding copy_right
copy_right_lem pre src n end at_end fits =
    let gap : ℕ = 32 - length src in
    let zeros : Bytes = replicate (32 + n) 0 in
    let fits_too : leb (length src) end ≡ true = ground arith in
    let start : end - length src ≡ length pre + gap = omega arith in
    let room : gap ≤ 32 + n = omega arith in
    let z : ℕ = 0 in
    rw
      (
        fits_too,
        take-append (end - length src) gap pre zeros start,
        drop-append end 32 pre zeros at_end,
        drop-replicate (32 + n) 32 n z refl,
        take-replicate gap (32 + n) z room,
        append_assoc pre (replicate gap 0) src,
      )
      refl

pub pack_rs_lem :
    (c : Curve) (r s : ℤ)
    → length (big_bytes r) ≤ 32
    → length (big_bytes s) ≤ 32
    → pack_rs c r s ≡ ok (word_of r ++ word_of s ++ 0 ∷ [])
unfolding pack_rs
pack_rs_lem c r s hr hs =
    let first : copy_right (replicate 65 0) 32 (big_bytes r) ≡ some (word_of r ++ replicate 33 0) =
      copy_right_lem [] (big_bytes r) 33 32 refl hr in
    let width : 64 ≡ length (word_of r) + 32 = omega (arith, length-padded (big_bytes r) hr) in
    rw (pack_rs, first, copy_right_lem (word_of r) (big_bytes s) 1 64 width hs) refl
