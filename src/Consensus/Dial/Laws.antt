-- ===== src/Consensus/Dial/Laws.antt =====
-- What holds of a client between its connections, and when it returns.
use bridge_remote_signer.Metrics.{set_target_connected}
use bridge_remote_signer.Consensus.Primary.{PrimaryArbiter, release}
use bridge_remote_signer.Consensus.Types.{CometTypes, Message}
use bridge_remote_signer.Consensus.Handler.{Handler}
use bridge_remote_signer.Consensus.Gate.{
  Outcome, panics, returns, Returns, >>=-Returns, Node, delegate, gated_handler, client_handler,
}
use bridge_remote_signer.Consensus.Gate.Laws.{IsNilPayload, gated_handler-panics}
use native.Mathlib.Nat.{pow-suc}
use bridge_remote_signer.Consensus.Dial.{
  ConnEvent, received, read_failed, Attempt, elapsed, canceled, stopped, dial_failed, connected,
  next_backoff, on_state, serve_conn, run_dial_client_from, run_dial_client,
}
use bridge_remote_signer.Base.{
  All, Any, Bool, Bytes, List, [], arith, false, inl, inr, lookup, lookup-insert, min, none, refl,
  some, suc, true, ℕ, ◌*◌, ◌^◌, ◌↔◌, ◌∷◌, ◌≡◌, ◌≢◌,
}

-- The node does not hold the role, and its connection gauge is 0.
pub record IsOff (S : Type 0) (id : Bytes) (n : Node S) : Type 0 where
  pub no_role : (a : PrimaryArbiter) → n.arbiter ≡ some a → a.primary ≢ id
  pub gauge : lookup id n.metrics.target_connected ≡ some 0

on_state-IsOff : {S : Type 0} (id : Bytes) (n : Node S) → id ≢ [] → IsOff S id (on_state id false n)
unfolding on_state release set_target_connected
on_state-IsOff id n named = record {
  no_role = λ a e. ground arith;
  gauge = ground (arith, lookup-insert id id 0 n.metrics.target_connected);
}

-- The waits as a rule: the `k`-th failure in a row is followed by 1 s doubled `k` times and capped
-- at 5 s, a session by 300 ms.
abbrev pub waits_of : (c : CometTypes) → ℕ → List (Attempt c) → List ℕ
waits_of c k (dial_failed elapsed ∷ rest) = min (1000 * 2 ^ k) 5000 ∷ waits_of c (suc k) rest
waits_of c k (connected es elapsed ∷ rest) = 300 ∷ waits_of c 0 rest
waits_of c k _ = []

-- The context is done at the dial or in the wait after it.
abbrev pub IsCanceled : (c : CometTypes) → Attempt c → Type 0
IsCanceled c stopped = Unit
IsCanceled c (dial_failed canceled) = Unit
IsCanceled c (connected es canceled) = Unit
IsCanceled c _ = ⊥

next_backoff-min : (k : ℕ) → next_backoff (min (1000 * 2 ^ k) 5000) ≡ min (1000 * 2 ^ suc k) 5000
unfolding next_backoff
next_backoff-min k = ground (arith, pow-suc 2 k)

not_panics : {A : Type 0} (m : Outcome A) → m ≢ panics → Returns (λ _. Unit {0}) m
not_panics panics h = h refl
not_panics (returns a) h = tt

module _ (c : CometTypes) where
  abbrev pub IsServable : ConnEvent c → Type 0
  IsServable (received now req written) = ¬ IsNilPayload c req
  IsServable read_failed = Unit

  -- No request of the attempt has a nil payload.
  abbrev pub HasPayloads : Attempt c → Type 0
  HasPayloads (connected es w) = All IsServable es
  HasPayloads _ = Unit

-- An attempt that goes on leaves it to the others.
later :
    {c : CometTypes} (a : Attempt c) (over : Bool) (rest : List (Attempt c))
    → ¬ IsCanceled c a
    → (over ≡ true) ↔ Any (IsCanceled c) rest
    → (over ≡ true) ↔ Any (IsCanceled c) (a ∷ rest)
later a over rest on (f, g) =
    (λ h. inr (f h), λ h. elim h [ inl found ↦ absurd (on found) | inr found ↦ g found ])

module _ (c : CometTypes) {S : Type 0} (next : Handler c S) (chain_id : Bytes) (id : Bytes) where
  client_handler-Returns :
      (n : Node S) (now : ℕ) (req : Message c)
      → ¬ IsNilPayload c req
      → Returns (λ _. Unit {0}) (client_handler c next id n now req chain_id)
  unfolding client_handler
  client_handler-Returns n now req payload =
      elim n.arbiter
        as (λ arbiter.
          Returns (λ _. Unit {0})
            (elim arbiter [
              | none ↦ returns (delegate c next n req chain_id)
              | some a ↦ gated_handler c next a id n now req chain_id
            ])) [
              | none ↦ tt
              | some a ↦
                  not_panics _
                    (λ e. payload ((gated_handler-panics c next a id n now req chain_id).0 e))
            ]

  serve_conn-Returns :
      (n : Node S) (es : List (ConnEvent c))
      → All (IsServable c) es
      → Returns (λ _. Unit {0}) (serve_conn c next chain_id id n es)
  unfolding serve_conn
  serve_conn-Returns n [] v = tt
  serve_conn-Returns n (read_failed ∷ es) v = tt
  serve_conn-Returns n (received now req false ∷ es) v =
      >>=-Returns (λ _. Unit {0}) (λ _. Unit {0}) _ _ (client_handler-Returns n now req v.0)
        (λ r _. tt)
  serve_conn-Returns n (received now req true ∷ es) v =
      >>=-Returns (λ _. Unit {0}) (λ _. Unit {0}) _ _ (client_handler-Returns n now req v.0)
        (λ r _.
          >>=-Returns (λ _. Unit {0}) (λ _. Unit {0}) _ _ (serve_conn-Returns r.0 es v.1)
            (λ _ _. tt))

  -- What holds of a client after these attempts: it is off, it has waited by the rule, and it has
  -- returned exactly if it has found the context done.
  abbrev pub Ended : ℕ → List (Attempt c) → Node S × List ℕ × Bool → Type 0
  Ended k attempts r =
      IsOff S id r.0 × (r.1 ≡ waits_of c k attempts) × ((r.2 ≡ true) ↔ Any (IsCanceled c) attempts)

  run_from-Ended :
      (k : ℕ) (n : Node S) (attempts : List (Attempt c))
      → id ≢ []
      → IsOff S id n
      → All (HasPayloads c) attempts
      → Returns
          (Ended k attempts)
          (run_dial_client_from c next chain_id id (min (1000 * 2 ^ k) 5000) n attempts)
  unfolding run_dial_client_from
  run_from-Ended k n [] named off v = (off, refl, (λ h. absurd (ground arith), λ h. absurd h))
  run_from-Ended k n (stopped ∷ rest) named off v = (off, refl, (λ h. inl tt, λ h. refl))
  run_from-Ended k n (dial_failed canceled ∷ rest) named off v =
      (on_state-IsOff id n named, refl, (λ h. inl tt, λ h. refl))
  run_from-Ended k n (dial_failed elapsed ∷ rest) named off v = rw (next_backoff-min k) (
      >>=-Returns (Ended (suc k) rest) (Ended k (dial_failed elapsed ∷ rest)) _ _
        (run_from-Ended (suc k) _ rest named (on_state-IsOff id n named) v.1)
        (λ r h. (h.0, rw h.1, later (dial_failed elapsed) r.2 rest (λ e. e) h.2)))
  run_from-Ended k n (connected es canceled ∷ rest) named off v =
      >>=-Returns (λ _. Unit {0}) (Ended k (connected es canceled ∷ rest)) _ _
        (serve_conn-Returns _ es v.0)
        (λ r _. (on_state-IsOff id r.0 named, refl, (λ h. inl tt, λ h. refl)))
  run_from-Ended k n (connected es elapsed ∷ rest) named off v =
      >>=-Returns (λ _. Unit {0}) (Ended k (connected es elapsed ∷ rest)) _ _
        (serve_conn-Returns _ es v.0)
        (λ r _.
          >>=-Returns (Ended 0 rest) (Ended k (connected es elapsed ∷ rest)) _ _
            (run_from-Ended 0 _ rest named (on_state-IsOff id r.0 named) v.1)
            (λ q h. (h.0, rw h.1, later (connected es elapsed) q.2 rest (λ e. e) h.2)))

  -- A client whose node starts without the role and sends no request with a nil payload never
  -- panics, whatever else happens on the network. Between two connections it holds no role and its
  -- connection gauge is 0, it has waited for 1 s doubled for each failed dial in a row, 5 s at most,
  -- and for 300 ms after each session, and it has returned exactly if it has found its context done,
  -- before a dial or in a wait, which it then cut short.
  pub run_dial_client-Ended :
      (n : Node S) (attempts : List (Attempt c))
      → id ≢ []
      → ((a : PrimaryArbiter) → n.arbiter ≡ some a → a.primary ≢ id)
      → All (HasPayloads c) attempts
      → Returns (Ended 0 attempts) (run_dial_client c next chain_id id n attempts)
  unfolding run_dial_client set_target_connected
  run_dial_client-Ended n attempts named free v =
      run_from-Ended 0 (record n { metrics = set_target_connected n.metrics id false }) attempts
        named
        (record {
          no_role = free;
          gauge = ground (arith, lookup-insert id id 0 n.metrics.target_connected);
        })
        v
