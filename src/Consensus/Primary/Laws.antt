-- ===== src/Consensus/Primary/Laws.antt =====
-- What one call of `Acquire` or `Release` grants and keeps.
use bridge_remote_signer.Consensus.Primary.{PrimaryArbiter, outranks, acquire}
use bridge_remote_signer.Base.{
  Bool, Bytes, [], arith, bytes_beq_iff, if◌then◌else◌, inl, inr, ltb, ltb_ℤ, not, true, ℕ, ℤ, ◌&&◌,
  ◌-◌, ◌<◌, ◌==◌, ◌||◌, ◌↔◌, ◌≡◌, ◌≤ℤ◌, ◌⊎◌, bytes_eq, nat_eq,
}

-- When a node may sign: it holds the role, nobody does, the holder was idle for longer than the
-- timeout, or the node is preferred and has caught up.
abbrev pub MayTake : PrimaryArbiter → ℕ → Bytes → ℤ → Type 0
MayTake a now id height =
    (a.primary ≡ id)
    ⊎ (a.primary ≡ [])
    ⊎ (a.timeout < now - a.last_req)
    ⊎ ((outranks a id ≡ true) × (a.max_height ≤ℤ height))

granted_test :
    (a : PrimaryArbiter) (now : ℕ) (id : Bytes) (height : ℤ)
    → (acquire a now id height).1 ≡ (
        a.primary == id
        || a.primary == []
        || ltb a.timeout (now - a.last_req)
        || (outranks a id && not (ltb_ℤ height a.max_height)))
unfolding acquire
granted_test a now id height = ground arith

or_second : (a b c d : Bool) → b ≡ true → (a || b || c || d) ≡ true
or_second a b c d h = ground arith

-- `Acquire` answers true exactly when one of the four grounds holds.
pub acquire-MayTake :
    (a : PrimaryArbiter) (now : ℕ) (id : Bytes) (height : ℤ)
    → ((acquire a now id height).1 ≡ true) ↔ MayTake a now id height
unfolding acquire
acquire-MayTake a now id height = (
  λ h. ground arith,
  λ m. elim m [
    | inl held ↦ ground arith
    | inr (inl vacant) ↦
        rw granted_test (or_second _ (a.primary == []) _ _ ((bytes_beq_iff a.primary []).1 vacant))
    | inr (inr (inl idle)) ↦ ground arith
    | inr (inr (inr ahead)) ↦ ground arith
  ],
)

-- A granted request makes its node the primary with a fresh idle timer, and raises the height
-- mark to its own height if that is greater. A refused request changes nothing.
pub acquire_effect :
    (a : PrimaryArbiter) (now : ℕ) (id : Bytes) (height : ℤ)
    → let (b, granted) = acquire a now id height in
      if granted
      then (b.primary ≡ id)
        × (b.last_req ≡ now)
        × (b.max_height ≡ (if ltb_ℤ a.max_height height then height else a.max_height))
        × (b.rank ≡ a.rank)
        × (b.timeout ≡ a.timeout)
      else b ≡ a
unfolding acquire
acquire_effect a now id height = ground arith
