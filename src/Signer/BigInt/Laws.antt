-- ===== src/Signer/BigInt/Laws.antt =====
-- Lemmas on the bytes of a number: their value, with padding or without, and their length.
use bridge_remote_signer.Base.{
  Bytes, [], arith, length, length-append, refl, replicate, suc, zero, ℕ, ℤ, ◌%◌, ◌*◌, ◌++◌, ◌+◌,
  ◌/◌, ◌<◌, ◌^◌, ◌∷◌, ◌≡◌, ◌≤◌,
}
use bridge_remote_signer.Signer.BigInt.{digits, big_bytes, set_bytes_from, set_bytes, abs}

set_bytes_from_snoc :
    (acc d : ℕ) (xs : Bytes) → set_bytes_from acc (xs ++ d ∷ []) ≡ set_bytes_from acc xs * 256 + d
unfolding set_bytes_from
set_bytes_from_snoc acc d [] = refl
set_bytes_from_snoc acc d (x ∷ xs) = set_bytes_from_snoc (acc * 256 + x) d xs

digits-suc :
    (fuel x : ℕ) → digits (suc fuel) (suc x) ≡ digits fuel (suc x / 256) ++ (suc x % 256) ∷ []
unfolding digits
digits-suc fuel x = refl

set_bytes-digits : (fuel x : ℕ) → x ≤ fuel → set_bytes (digits fuel x) ≡ x
unfolding digits set_bytes_from
set_bytes-digits zero x h = omega arith
set_bytes-digits (suc fuel) zero h = refl
set_bytes-digits (suc fuel) (suc x) h =
    let shrinks : suc x / 256 ≤ fuel = omega arith in
    rw
      (
        digits-suc fuel x,
        set_bytes_from_snoc 0 (suc x % 256) (digits fuel (suc x / 256)),
        set_bytes-digits fuel (suc x / 256) shrinks,
      )
      (omega arith)

pub set_bytes-big_bytes : (x : ℤ) → set_bytes (big_bytes x) ≡ abs x
unfolding big_bytes
set_bytes-big_bytes x = set_bytes-digits (abs x) (abs x) (omega arith)

length-digits : (fuel x k : ℕ) → x < 256 ^ k → length (digits fuel x) ≤ k
unfolding digits
length-digits zero x k h = omega arith
length-digits (suc fuel) zero k h = omega arith
length-digits (suc fuel) (suc x) zero h = omega arith
length-digits (suc fuel) (suc x) (suc k) h =
    let shrinks : suc x / 256 < 256 ^ k = omega arith in
    rw (digits-suc fuel x, length-append (digits fuel (suc x / 256)) ((suc x % 256) ∷ []))
      (omega (arith, length-digits fuel (suc x / 256) k shrinks))

pub length-big_bytes : (x : ℤ) (k : ℕ) → abs x < 256 ^ k → length (big_bytes x) ≤ k
unfolding big_bytes
length-big_bytes x k h = length-digits (abs x) (abs x) k h

pub set_bytes_from_zeros : (n : ℕ) (xs : Bytes) → set_bytes (replicate n 0 ++ xs) ≡ set_bytes xs
unfolding set_bytes_from
set_bytes_from_zeros zero xs = refl
set_bytes_from_zeros (suc n) xs = set_bytes_from_zeros n xs
