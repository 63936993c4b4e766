-- ===== src/Base/Family.antt =====
-- Families indexed by a number, such as the states of calls or clients, and a change at one index.
use Prim.Native.Nat.{ℕ}
use mathlib.Core.Path.{◌≡◌, refl}
use mathlib.Core.Logic.{ite, if_pos, if_neg, ◌≢◌}
use native.Mathlib.Decide.{ℕ_discrete}

module _ {ℓ} {A : Type ℓ} where
  abbrev pub update : (ℕ → A) → ℕ → A → ℕ → A
  update f i a j = ite (ℕ_discrete i j) a (f j)

  pub update_self : (f : ℕ → A) (i : ℕ) (a : A) → update f i a i ≡ a
  update_self f i a = if_pos (ℕ_discrete i i) refl a (f i)

  -- A fact of every member after the one at `i` has been changed.
  pub update-elim {κ} :
      (P : A → Type κ) (f : ℕ → A) (i : ℕ) (a : A) (j : ℕ)
      → P a
      → (i ≢ j → P (f j))
      → P (update f i a j)
  update-elim P f i a j new old = elim (ℕ_discrete i j) [
    | yes e ↦ rw (if_pos (ℕ_discrete i j) e) new
    | no e ↦ rw (if_neg (ℕ_discrete i j) e) (old e)
  ]
