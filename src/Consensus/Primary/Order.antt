-- ===== src/Consensus/Primary/Order.antt =====
-- What `outranks` means in terms of the list that the operator wrote.
use mathlib.Core.Option.{or_else}
use bridge_remote_signer.Consensus.Primary.{
  PrimaryArbiter, rank_from, new_preferring_primary_arbiter, outranks,
}
use bridge_remote_signer.Base.{
  Bool, Bytes, List, Option, Option-cases, [], arith, false, if◌then◌else◌, inl, inr, insert,
  length, lookup, lookup-insert, ltb, none, refl, some, true, ℕ, ◌+◌, ◌==◌, ◌∷◌, ◌≡◌, bytes_eq,
  nat_eq,
}

-- The first place of an id in the list, counted from `i`.
abbrev pub position : ℕ → Bytes → List Bytes → Option ℕ
position i id [] = none
position i id (x ∷ rest) = if x == id then some i else position (i + 1) id rest

-- `id` stands in the list, and before the other one if that stands there too.
abbrev pub is_before : Option ℕ → Option ℕ → Bool
is_before none theirs = false
is_before (some mine) none = true
is_before (some mine) (some theirs) = ltb mine theirs

lookup-rank_from :
    (order : List Bytes) (i : ℕ) (id : Bytes) (rank : List (Bytes × ℕ))
    → lookup id (rank_from i order rank) ≡ or_else (lookup id rank) (position i id order)
unfolding rank_from or_else
lookup-rank_from [] i id rank = ground arith
lookup-rank_from (x ∷ rest) i id rank = elim (Option-cases (lookup x rank)) [
  | inl fresh ↦
      rw (fresh, lookup-rank_from rest (i + 1) id (insert x i rank), lookup-insert) (ground arith)
  | inr (j, dup) ↦ rw (dup, lookup-rank_from rest (i + 1) id rank) (ground arith)
]

outranks-lookup :
    (a : PrimaryArbiter) (id : Bytes)
    → outranks a id ≡ is_before (lookup id a.rank) (lookup a.primary a.rank)
unfolding outranks lookup
outranks-lookup a id =
    elim a.rank
      as (λ r.
        (if length r == 0 then false else elim (lookup id r) [
          | none ↦ false
          | some mine ↦ elim (lookup a.primary r) [ none ↦ true | some theirs ↦ ltb mine theirs ]
        ])
        ≡ is_before (lookup id r) (lookup a.primary r)) [ [] ↦ refl | x ∷ r ↦ ground arith ]

-- An arbiter built from a preference list prefers a node over the primary exactly when the node
-- is listed, and the primary is unlisted or has its first place later.
pub outranks-position :
    (timeout : ℕ) (order : List Bytes) (a : PrimaryArbiter) (id : Bytes)
    → a.rank ≡ (new_preferring_primary_arbiter timeout order).rank
    → outranks a id ≡ is_before (position 0 id order) (position 0 a.primary order)
unfolding new_preferring_primary_arbiter or_else lookup
outranks-position timeout order a id h =
    rw (outranks-lookup, h, lookup-rank_from order 0 id [], lookup-rank_from order 0 a.primary [])
      refl
