-- ===== src/Text.antt =====
-- Go's `encoding/hex`, `strconv.ParseUint` in base 10 and `strings.TrimSpace`, over bytes.
-- `trim_space` trims the ASCII white space: it stands where the source trims a file that it wrote
-- itself, or a decimal number. `trim_white_space` trims what `unicode.IsSpace` holds of, in UTF-8.
pub mod Laws
use mathlib.Core.List.{reverse}
use bridge_remote_signer.Base.{
  Bool, Bytes, Option, [], if◌then◌else◌, leb, ltb, none, not, some, suc, zero, ℕ, ◌%◌, ◌&&◌, ◌*◌,
  ◌+◌, ◌-◌, ◌/◌, ◌==◌, ◌^◌, ◌||◌, ◌∷◌, bytes_eq, nat_eq,
}

unfoldable pub hex_digit : ℕ → ℕ
hex_digit d = if ltb d 10 then 48 + d else 87 + d

-- `hex.EncodeToString`
unfoldable pub hex_encode : Bytes → Bytes
hex_encode [] = []
hex_encode (b ∷ bs) = hex_digit (b / 16) ∷ hex_digit (b % 16) ∷ hex_encode bs

unfoldable pub from_hex_digit : ℕ → Option ℕ
from_hex_digit c =
    if leb 48 c && leb c 57
    then some (c - 48)
    else if leb 97 c && leb c 102
    then some (c - 87)
    else if leb 65 c && leb c 70
    then some (c - 55)
    else none

-- `hex.DecodeString`; `none` stands for its error.
unfoldable pub hex_decode : Bytes → Option Bytes
hex_decode [] = some []
hex_decode (c ∷ []) = none
hex_decode (c ∷ d ∷ cs) = elim (from_hex_digit c) [
  | none ↦ none
  | some hi ↦ elim (from_hex_digit d) [
    | none ↦ none
    | some lo ↦ elim (hex_decode cs) [ none ↦ none | some bs ↦ some ((hi * 16 + lo) ∷ bs) ]
  ]
]

abbrev pub u64_limit : ℕ
u64_limit = 2 ^ 64

-- The digits after `acc`; `none` for a byte that is no digit, or on overflow.
parse_digits : ℕ → Bytes → Option ℕ
parse_digits acc [] = some acc
parse_digits acc (c ∷ cs) =
    let next = acc * 10 + (c - 48) in
    let rest = parse_digits next cs in
    if not (leb 48 c && leb c 57) || leb u64_limit next then none else rest

-- `strconv.ParseUint(s, 10, 64)`
unfoldable pub parse_uint : Bytes → Option ℕ
unfolding parse_digits
parse_uint [] = none
parse_uint (c ∷ cs) = parse_digits 0 (c ∷ cs)

abbrev pub is_space : ℕ → Bool
is_space c = c == 32 || (leb 9 c && leb c 13)

unfoldable pub trim_left : Bytes → Bytes
trim_left [] = []
trim_left (c ∷ cs) = if is_space c then trim_left cs else c ∷ cs

unfoldable pub trim_space : Bytes → Bytes
trim_space s = reverse (trim_left (reverse (trim_left s)))

-- U+0085 and U+00A0; then U+1680, U+2000 to U+200A, U+2028, U+2029, U+202F, U+205F and U+3000.
abbrev pub is_space_of_two : ℕ → ℕ → Bool
is_space_of_two a b = a == 194 && (b == 133 || b == 160)

abbrev pub is_space_of_three : ℕ → ℕ → ℕ → Bool
is_space_of_three a b d =
    (a == 225 && b == 154 && d == 128)
    || (a == 226 && b == 128 && ((leb 128 d && leb d 138) || d == 168 || d == 169 || d == 175))
    || (a == 226 && b == 129 && d == 159)
    || (a == 227 && b == 128 && d == 128)

-- The bytes of the white space at the front, and at the front of a reversed string; 0 without one.
abbrev pub space_size : Bytes → ℕ
space_size [] = 0
space_size (a ∷ []) = if is_space a then 1 else 0
space_size (a ∷ b ∷ []) = if is_space a then 1 else if is_space_of_two a b then 2 else 0
space_size (a ∷ b ∷ d ∷ cs) =
    if is_space a
    then 1
    else if is_space_of_two a b
    then 2
    else if is_space_of_three a b d
    then 3
    else 0

abbrev pub last_space_size : Bytes → ℕ
last_space_size [] = 0
last_space_size (a ∷ []) = if is_space a then 1 else 0
last_space_size (a ∷ b ∷ []) = if is_space a then 1 else if is_space_of_two b a then 2 else 0
last_space_size (a ∷ b ∷ d ∷ cs) =
    if is_space a
    then 1
    else if is_space_of_two b a
    then 2
    else if is_space_of_three d b a
    then 3
    else 0

-- Without the white space at the front, after the bytes of a white space that are still to go.
abbrev pub trim_front : (Bytes → ℕ) → ℕ → Bytes → Bytes
trim_front size left [] = []
trim_front size (suc left) (c ∷ cs) = trim_front size left cs
trim_front size zero (c ∷ cs) =
    let rest = trim_front size (size (c ∷ cs) - 1) cs in if size (c ∷ cs) == 0 then c ∷ cs else rest

unfoldable pub trim_white_space : Bytes → Bytes
trim_white_space s = reverse (trim_front last_space_size 0 (reverse (trim_front space_size 0 s)))
