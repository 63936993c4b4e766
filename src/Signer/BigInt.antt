-- ===== src/Signer/BigInt.antt =====
-- What the signer package uses of math/big: `Bytes`, `SetBytes` and `Sub`. A big.Int is an integer.
use bridge_remote_signer.Base.{
  Bytes, [], if◌then◌else◌, leb, negsuc, pos, suc, zero, ℕ, ℤ, ◌%◌, ◌*◌, ◌++◌, ◌+◌, ◌-◌, ◌/◌, ◌∷◌,
}
pub mod Laws

abbrev pub abs : ℤ → ℕ
abs (pos n) = n
abs (negsuc n) = suc n

-- `new(big.Int).Sub(n, x)` for a number `n`
unfoldable pub minus : ℕ → ℤ → ℤ
minus n (pos m) = if leb m n then pos (n - m) else negsuc (m - n - 1)
minus n (negsuc m) = pos (n + suc m)

-- Big-endian, without leading zeros. The fuel is the number itself, and a step divides it by 256.
unfoldable pub digits : ℕ → ℕ → Bytes
digits zero x = []
digits (suc fuel) zero = []
digits (suc fuel) (suc x) = digits fuel (suc x / 256) ++ (suc x % 256) ∷ []

-- `x.Bytes()`, of the absolute value
unfoldable pub big_bytes : ℤ → Bytes
big_bytes x = digits (abs x) (abs x)

unfoldable pub set_bytes_from : ℕ → Bytes → ℕ
set_bytes_from acc [] = acc
set_bytes_from acc (b ∷ bs) = set_bytes_from (acc * 256 + b) bs

-- `new(big.Int).SetBytes(b)`
abbrev pub set_bytes : Bytes → ℕ
set_bytes b = set_bytes_from 0 b
