-- ===== src/Consensus/Primary/History.antt =====
-- Histories of one arbiter: sign requests and lost connections of any nodes in any order.
use mathlib.Core.Path.{subst₃}
use mathlib.Core.Bool.{false≢true}
use bridge_remote_signer.Consensus.Primary.{
  PrimaryArbiter, new_preferring_primary_arbiter, acquire, release,
}
use bridge_remote_signer.Consensus.Primary.Laws.{MayTake, acquire-MayTake, acquire_effect}
use bridge_remote_signer.Consensus.Primary.Order.{position, is_before, outranks-position}
use bridge_remote_signer.Base.{
  Bool-cases, Bytes, List, [], arith, if◌then◌else◌, inl, inr, ltb_ℤ, pos, refl, subst, sym, true,
  ℕ, ℤ, ◌-◌, ◌<◌, ◌∙◌, ◌∷◌, ◌≡◌, ◌≢◌, ◌≤ℤ◌, ◌⊎◌,
}

pub data Event : Type 0 where
  request : ℕ → Bytes → ℤ → Event
  disconnect : Bytes → Event

-- What an event did to the role.
pub data Entry : Type 0 where
  granted : ℕ → Bytes → ℤ → Entry
  refused : Bytes → Entry
  released : Bytes → Entry
  kept : Entry

abbrev step : PrimaryArbiter → Event → PrimaryArbiter × Entry
step a (request now id height) =
    let (b, taken) = acquire a now id height in
    (b, if taken then granted now id height else refused id)
step a (disconnect id) =
    let (b, dropped) = release a id in (b, if dropped then released id else kept)

unfoldable pub run : PrimaryArbiter → List Event → PrimaryArbiter × List Entry
run a [] = (a, [])
run a (e ∷ es) = let (b, entry) = step a e in let (c, log) = run b es in (c, entry ∷ log)

abbrev max_ℤ : ℤ → ℤ → ℤ
max_ℤ a b = if ltb_ℤ a b then b else a

-- The contract of the election, read off the log alone: `holder` had its last request granted at
-- `since`, and `mark` is the greatest height granted so far.
abbrev pub IsOrderly : ℕ → List Bytes → Bytes → ℕ → ℤ → List Entry → Type 0
IsOrderly timeout order holder since mark [] = Unit
IsOrderly timeout order holder since mark (granted t id height ∷ log) =
    ((holder ≡ id)
      ⊎ (holder ≡ [])
      ⊎ (timeout < t - since)
      ⊎ ((is_before (position 0 id order) (position 0 holder order) ≡ true) × (mark ≤ℤ height)))
    × IsOrderly timeout order id t (max_ℤ mark height) log
IsOrderly timeout order holder since mark (refused id ∷ log) =
    (holder ≢ id) × (holder ≢ []) × IsOrderly timeout order holder since mark log
IsOrderly timeout order holder since mark (released id ∷ log) =
    (holder ≡ id) × IsOrderly timeout order [] 0 mark log
IsOrderly timeout order holder since mark (kept ∷ log) =
    IsOrderly timeout order holder since mark log

module _ (timeout : ℕ) (order : List Bytes) where
  abbrev Configured : PrimaryArbiter → Type 0
  Configured a =
      (a.timeout ≡ timeout) × (a.rank ≡ (new_preferring_primary_arbiter timeout order).rank)

  abbrev Orderly : PrimaryArbiter → List Entry → Type 0
  Orderly a = IsOrderly timeout order a.primary a.last_req a.max_height

  IsOrderly-cong :
      {h h' : Bytes} {t t' : ℕ} {m m' : ℤ} (log : List Entry)
      → h ≡ h'
      → t ≡ t'
      → m ≡ m'
      → IsOrderly timeout order h t m log
      → IsOrderly timeout order h' t' m' log
  IsOrderly-cong log p q r = subst₃ (λ h t m. IsOrderly timeout order h t m log) p q r

  acquire-Configured :
      (a : PrimaryArbiter) (now : ℕ) (id : Bytes) (height : ℤ)
      → Configured a
      → Configured (acquire a now id height).0
  unfolding acquire
  acquire-Configured a now id height c = ground arith

  release-Configured :
      (a : PrimaryArbiter) (id : Bytes) → Configured a → Configured (release a id).0
  unfolding release
  release-Configured a id c = ground arith

  ground_of :
      (a : PrimaryArbiter) (now : ℕ) (id : Bytes) (height : ℤ)
      → Configured a
      → MayTake a now id height
      → (a.primary ≡ id)
        ⊎ (a.primary ≡ [])
        ⊎ (timeout < now - a.last_req)
        ⊎ ((is_before (position 0 id order) (position 0 a.primary order) ≡ true)
            × (a.max_height ≤ℤ height))
  ground_of a now id height c m = elim m [
    | inl held ↦ inl held
    | inr (inl vacant) ↦ inr (inl vacant)
    | inr (inr (inl idle)) ↦ inr (inr (inl (omega (arith, c.0))))
    | inr (inr (inr (ahead, reached))) ↦
        inr (inr (inr (sym (outranks-position timeout order a id c.1) ∙ ahead, reached)))
  ]

  request-IsOrderly :
      (a : PrimaryArbiter) (now : ℕ) (id : Bytes) (height : ℤ) (log : List Entry)
      → Configured a
      → Orderly (acquire a now id height).0 log
      → Orderly a ((step a (request now id height)).1 ∷ log)
  request-IsOrderly a now id height log c rest = elim (Bool-cases (acquire a now id height).1) [
    | inl taken ↦
        let (holder, since, mark, _, _) = rw taken at (acquire_effect a now id height) in
        rw taken (
          ground_of a now id height c ((acquire-MayTake a now id height).0 taken),
          IsOrderly-cong log holder since mark rest,
        )
    | inr denied ↦
        let same = rw denied at (acquire_effect a now id height) in
        let refusal = λ (m : MayTake a now id height).
          false≢true (sym denied ∙ (acquire-MayTake a now id height).1 m) in
        rw denied (
          λ held. refusal (inl held),
          λ vacant. refusal (inr (inl vacant)),
          subst (λ b. Orderly b log) same rest,
        )
  ]

  release-IsOrderly :
      (a : PrimaryArbiter) (id : Bytes) (log : List Entry)
      → Orderly (release a id).0 log
      → Orderly a ((step a (disconnect id)).1 ∷ log)
  unfolding release
  release-IsOrderly a id log rest = ground arith

  run-IsOrderly_from :
      (a : PrimaryArbiter) (es : List Event) → Configured a → Orderly a (run a es).1
  unfolding run
  run-IsOrderly_from a [] c = tt
  run-IsOrderly_from a (request now id height ∷ es) c =
      request-IsOrderly a now id height _ c
        (run-IsOrderly_from (acquire a now id height).0 es (acquire-Configured a now id height c))
  run-IsOrderly_from a (disconnect id ∷ es) c =
      release-IsOrderly a id _ (run-IsOrderly_from (release a id).0 es (release-Configured a id c))

  -- Whatever the nodes send, and in whatever order, every change of the role that a new arbiter
  -- makes has its ground: the role was vacant, its holder was idle for longer than the timeout,
  -- or the new holder stands earlier in the operator's list and has reached the greatest height
  -- granted so far. A refused request was not the holder's and the role was held, and only the
  -- holder's own disconnect clears the role.
  pub run-IsOrderly :
      (es : List Event)
      → IsOrderly timeout order [] 0
          (pos 0)
          (run (new_preferring_primary_arbiter timeout order) es).1
  unfolding new_preferring_primary_arbiter
  run-IsOrderly es =
      run-IsOrderly_from (new_preferring_primary_arbiter timeout order) es (refl, refl)
