-- ===== src/Base/Results.antt =====
-- A value or an error, with the `do` notation.
use mathlib.Core.Path.{◌≡◌, refl}
use mathlib.Core.Logic.{◌⊎◌, inl, inr}
use mathlib.Core.Bool.{Bool}
use mathlib.Core.Option.{Option, none, some}
use bridge_remote_signer.Base.Tests.{if◌then◌else◌}

pub data Result {ε ℓ} (E : Type ε) (A : Type ℓ) : Type (ε ⊔ ℓ) where
  err : E → Result E A
  ok : A → Result E A

infixl 5 ◌>>=◌ ◌>>◌
abbrev pub ◌>>=◌ {ε ℓ κ} :
    {E : Type ε} {A : Type ℓ} {B : Type κ} → Result E A → (A → Result E B) → Result E B
err e >>= next = err e
ok a >>= next = next a

abbrev pub ◌>>◌ {ε κ} : {E : Type ε} {B : Type κ} → Result E (Unit {0}) → Result E B → Result E B
err e >> rest = err e
ok done >> rest = rest

-- `if !test { return e }`
abbrev pub ensure {ε} : {E : Type ε} → Bool → E → Result E (Unit {0})
ensure test e = if test then ok tt else err e

-- What a chain that ended well went through.
pub >>=-eq-ok {ε ℓ κ} :
    {E : Type ε} {A : Type ℓ} {B : Type κ} {b : B} (first : Result E A) (next : A → Result E B)
    → (first >>= next) ≡ ok b
    → (a : A) × (next a ≡ ok b) × (first ≡ ok a)
>>=-eq-ok (err e) next h = cc
>>=-eq-ok (ok a) next h = (a, h, refl)

pub Result-cases {ε ℓ} :
    {E : Type ε} {A : Type ℓ} (r : Result E A) → ((e : E) × (r ≡ err e)) ⊎ ((a : A) × (r ≡ ok a))
Result-cases (err e) = inl (e, refl)
Result-cases (ok a) = inr (a, refl)

-- A call of Go that returns a value or an error.
abbrev pub some_or {ε ℓ} : {E : Type ε} {A : Type ℓ} → E → Option A → Result E A
some_or e none = err e
some_or e (some a) = ok a
