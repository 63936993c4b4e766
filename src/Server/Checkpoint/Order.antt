-- ===== src/Server/Checkpoint/Order.antt =====
-- The canonical order of a validator set: total, so that the order of the caller is forgotten.
use mathlib.Core.List.{Permᴰ}
use mathlib.Core.List.Permᴰ
use bridge_remote_signer.Server.Checkpoint.{
  BridgeValidator, bytes_ltb, less, insert_sorted, sort_bridge_validators,
}
use bridge_remote_signer.Base.{
  Bool-cases, Bytes, List, [], ap₂, arith, false, if◌then◌else◌, inl, inr, refl, sym, true, ◌<◌,
  ◌∙◌, ◌∷◌, ◌≡◌, ◌⊎◌,
}

bytes_ltb_trans :
    (a b d : Bytes) → bytes_ltb a b ≡ true → bytes_ltb b d ≡ true → bytes_ltb a d ≡ true
unfolding bytes_ltb
bytes_ltb_trans [] [] d h k = absurd (ground arith)
bytes_ltb_trans a [] d h k = absurd (ground arith)
bytes_ltb_trans a (y ∷ b) [] h k = absurd (ground arith)
bytes_ltb_trans [] (y ∷ b) (z ∷ d) h k = refl
bytes_ltb_trans (x ∷ a) (y ∷ b) (z ∷ d) h k = ground (arith, bytes_ltb_trans a b d)

bytes_ltb_asymm : (a b : Bytes) → bytes_ltb a b ≡ true → bytes_ltb b a ≡ false
unfolding bytes_ltb
bytes_ltb_asymm a [] h = absurd (ground arith)
bytes_ltb_asymm [] (y ∷ b) h = refl
bytes_ltb_asymm (x ∷ a) (y ∷ b) h = ground (arith, bytes_ltb_asymm a b)

bytes_ltb_total : (a b : Bytes) → bytes_ltb a b ≡ false → bytes_ltb b a ≡ false → a ≡ b
unfolding bytes_ltb
bytes_ltb_total [] [] h k = refl
bytes_ltb_total [] (y ∷ b) h k = absurd (ground arith)
bytes_ltb_total (x ∷ a) [] h k = absurd (ground arith)
bytes_ltb_total (x ∷ a) (y ∷ b) h k = ground (arith, bytes_ltb_total a b)

less_trans : (u v w : BridgeValidator) → less u v ≡ true → less v w ≡ true → less u w ≡ true
unfolding less
less_trans u v w h k =
    ground (arith, bytes_ltb_trans u.ethereum_address v.ethereum_address w.ethereum_address)

less_asymm : (v w : BridgeValidator) → less v w ≡ true → less w v ≡ false
unfolding less
less_asymm v w h = ground (arith, bytes_ltb_asymm v.ethereum_address w.ethereum_address)

less_total : (v w : BridgeValidator) → less v w ≡ false → less w v ≡ false → v ≡ w
unfolding less
less_total v w h k = ground (arith, bytes_ltb_total v.ethereum_address w.ethereum_address)

insert_sorted_comm_less :
    (v w : BridgeValidator) (vs : List BridgeValidator)
    → less v w ≡ true
    → insert_sorted v (insert_sorted w vs) ≡ insert_sorted w (insert_sorted v vs)
unfolding insert_sorted
insert_sorted_comm_less v w [] h = ground (arith, less_asymm v w)
insert_sorted_comm_less v w (y ∷ ys) h =
    ground (arith, less_asymm v w, less_trans y v w, insert_sorted_comm_less v w ys)

insert_sorted_comm :
    (v w : BridgeValidator) (vs : List BridgeValidator)
    → insert_sorted v (insert_sorted w vs) ≡ insert_sorted w (insert_sorted v vs)
insert_sorted_comm v w vs = elim (Bool-cases (less v w)) [
  | inl h ↦ insert_sorted_comm_less v w vs h
  | inr h ↦ elim (Bool-cases (less w v)) [
    | inl k ↦ sym (insert_sorted_comm_less w v vs k)
    | inr k ↦ rw (less_total v w h k)
  ]
]

sort_bridge_validators-Permᴰ :
    {vs ws : List BridgeValidator}
    → Permᴰ vs ws
    → sort_bridge_validators vs ≡ sort_bridge_validators ws
unfolding sort_bridge_validators
sort_bridge_validators-Permᴰ Permᴰ.nil = refl
sort_bridge_validators-Permᴰ (Permᴰ.cons e p) = ap₂ insert_sorted e (sort_bridge_validators-Permᴰ p)
sort_bridge_validators-Permᴰ (Permᴰ.swap {a} {b} {l = l} e f) =
    rw (sym e, sym f) (insert_sorted_comm a b (sort_bridge_validators l))
sort_bridge_validators-Permᴰ (Permᴰ.trans p q) =
    sort_bridge_validators-Permᴰ p ∙ sort_bridge_validators-Permᴰ q

-- The order of byte strings, as in a dictionary.
abbrev pub IsUpTo : Bytes → Bytes → Type 0
IsUpTo [] ys = Unit
IsUpTo (x ∷ xs) [] = ⊥
IsUpTo (x ∷ xs) (y ∷ ys) = (x < y) ⊎ ((x ≡ y) × IsUpTo xs ys)

-- The greater power comes first, and of equal powers the address that comes first.
abbrev pub IsBefore : BridgeValidator → BridgeValidator → Type 0
IsBefore v w =
    (w.power < v.power) ⊎ ((v.power ≡ w.power) × IsUpTo v.ethereum_address w.ethereum_address)

abbrev pub IsCanonical : List BridgeValidator → Type 0
IsCanonical [] = Unit
IsCanonical (v ∷ []) = Unit
IsCanonical (v ∷ w ∷ vs) = IsBefore v w × IsCanonical (w ∷ vs)

bytes_ltb-IsUpTo : (a b : Bytes) → bytes_ltb b a ≡ false → IsUpTo a b
unfolding bytes_ltb
bytes_ltb-IsUpTo [] b h = tt
bytes_ltb-IsUpTo (x ∷ a) [] h = absurd (ground arith)
bytes_ltb-IsUpTo (x ∷ a) (y ∷ b) h = ground (arith, bytes_ltb-IsUpTo a b)

less-IsBefore : (v w : BridgeValidator) → less w v ≡ false → IsBefore v w
unfolding less
less-IsBefore v w h = ground (arith, bytes_ltb-IsUpTo v.ethereum_address w.ethereum_address)

insert_sorted-IsCanonical :
    (v : BridgeValidator) (vs : List BridgeValidator)
    → IsCanonical vs
    → IsCanonical (insert_sorted v vs)
unfolding insert_sorted
insert_sorted-IsCanonical v [] h = tt
insert_sorted-IsCanonical v (w ∷ []) h =
    ground (arith, less_asymm w v, less-IsBefore w v, less-IsBefore v w)
insert_sorted-IsCanonical v (w ∷ x ∷ vs) h = ground (
  arith,
  less_asymm w v,
  less-IsBefore w v,
  less-IsBefore v w,
  insert_sorted-IsCanonical v (x ∷ vs) h.1,
)

sort_bridge_validators-IsCanonical :
    (vs : List BridgeValidator) → IsCanonical (sort_bridge_validators vs)
unfolding sort_bridge_validators
sort_bridge_validators-IsCanonical [] = tt
sort_bridge_validators-IsCanonical (v ∷ vs) =
    insert_sorted-IsCanonical v _ (sort_bridge_validators-IsCanonical vs)

insert_sorted-Permᴰ :
    (v : BridgeValidator) (vs : List BridgeValidator) → Permᴰ (insert_sorted v vs) (v ∷ vs)
unfolding insert_sorted
insert_sorted-Permᴰ v [] = Permᴰ.refl _
insert_sorted-Permᴰ v (w ∷ vs) =
    elim (less w v)
      as (λ b. Permᴰ (if b then w ∷ insert_sorted v vs else v ∷ w ∷ vs) (v ∷ w ∷ vs)) [
        | true ↦ Permᴰ.trans (Permᴰ.cons refl (insert_sorted-Permᴰ v vs)) (Permᴰ.swap refl refl)
        | false ↦ Permᴰ.refl _
      ]

sort_bridge_validators-Permᴰ_self :
    (vs : List BridgeValidator) → Permᴰ (sort_bridge_validators vs) vs
unfolding sort_bridge_validators
sort_bridge_validators-Permᴰ_self [] = Permᴰ.nil
sort_bridge_validators-Permᴰ_self (v ∷ vs) =
    Permᴰ.trans (insert_sorted-Permᴰ v (sort_bridge_validators vs))
      (Permᴰ.cons refl (sort_bridge_validators-Permᴰ_self vs))

-- What is encoded is the canonical list of the set: the entries of the request, each as often as
-- there, by descending power and, where powers are equal, by ascending address; and it is the same
-- for any order of the request.
pub sort_bridge_validators_lem :
    (vs : List BridgeValidator)
    → Permᴰ (sort_bridge_validators vs) vs
      × IsCanonical (sort_bridge_validators vs)
      × ((ws : List BridgeValidator)
          → Permᴰ vs ws
          → sort_bridge_validators vs ≡ sort_bridge_validators ws)
sort_bridge_validators_lem vs = (
  sort_bridge_validators-Permᴰ_self vs,
  sort_bridge_validators-IsCanonical vs,
  λ ws p. sort_bridge_validators-Permᴰ p,
)
