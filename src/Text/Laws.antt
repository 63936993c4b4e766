-- ===== src/Text/Laws.antt =====
-- Hex text is read back, and text without white space at its ends is left alone.
use mathlib.Core.List.{reverse, reverse-reverse}
use bridge_remote_signer.Text.{
  hex_digit, hex_encode, from_hex_digit, hex_decode, is_space, trim_left, trim_space,
}
use bridge_remote_signer.Base.{
  All, Bytes, [], arith, false, refl, some, ℕ, ◌%◌, ◌/◌, ◌<◌, ◌∷◌, ◌≡◌, ◌≢◌,
}

-- Every element is a byte.
abbrev pub AreBytes : Bytes → Type 0
AreBytes = All (λ b. b < 256)

from_hex_digit-hex_digit : (d : ℕ) → d < 16 → from_hex_digit (hex_digit d) ≡ some d
unfolding from_hex_digit hex_digit
from_hex_digit-hex_digit d h = ground arith

-- Bytes survive the way through hex.
pub hex_decode-hex_encode : (bs : Bytes) → AreBytes bs → hex_decode (hex_encode bs) ≡ some bs
unfolding hex_decode hex_encode
hex_decode-hex_encode [] v = refl
hex_decode-hex_encode (b ∷ bs) v = ground (
  arith,
  from_hex_digit-hex_digit (b / 16) (omega (arith, v.0)),
  from_hex_digit-hex_digit (b % 16) (omega arith),
  hex_decode-hex_encode bs v.1,
)

pub hex_encode-ne-nil : (bs : Bytes) → bs ≢ [] → hex_encode bs ≢ []
unfolding hex_encode
hex_encode-ne-nil [] h = absurd (h refl)
hex_encode-ne-nil (b ∷ bs) h = λ e. cc

-- The first byte is no white space.
abbrev pub StartsSolid : Bytes → Type 0
StartsSolid [] = Unit
StartsSolid (c ∷ cs) = is_space c ≡ false

trim_left_of_solid : (s : Bytes) → StartsSolid s → trim_left s ≡ s
unfolding trim_left
trim_left_of_solid [] h = refl
trim_left_of_solid (c ∷ cs) h = rw h

pub trim_space_of_solid : (s : Bytes) → StartsSolid s → StartsSolid (reverse s) → trim_space s ≡ s
unfolding trim_space
trim_space_of_solid s h k =
    rw (trim_left_of_solid s h, trim_left_of_solid (reverse s) k) (reverse-reverse s)
