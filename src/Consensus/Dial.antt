-- ===== src/Consensus/Dial.antt =====
-- consensus/server.go: `RunDialClient`, `runDialClient` and `serveConn`, the client that dials one
-- node. What the network does so far is a list: each dial fails or gives a connection, on which
-- requests arrive until a read fails. The context is looked at before each dial and in each wait.
-- Waits are milliseconds.
pub mod Laws
use bridge_remote_signer.Metrics.{set_target_connected}
use bridge_remote_signer.Consensus.Primary.{release}
use bridge_remote_signer.Consensus.Types.{CometTypes, Message}
use bridge_remote_signer.Consensus.Handler.{Handler}
use bridge_remote_signer.Consensus.Gate.{Outcome, returns, ◌>>=◌, Node, client_handler}
use bridge_remote_signer.Base.{
  Bool, Bytes, List, [], false, if◌then◌else◌, ltb, none, some, true, ℕ, ◌*◌, ◌∷◌,
}

-- A wait goes by, or the context is done before.
pub data Wait : Type 0 where
  elapsed canceled : Wait

module _ (c : CometTypes) where
  -- A request with the time of its handling, and whether its response could be written.
  pub data ConnEvent : Type 0 where
    received : ℕ → Message c → Bool → ConnEvent
    read_failed : ConnEvent

  -- `stopped`: the context is done before the dial.
  pub data Attempt : Type 0 where
    stopped : Attempt
    dial_failed : Wait → Attempt
    connected : List ConnEvent → Wait → Attempt

abbrev pub min_backoff : ℕ
min_backoff = 1000

abbrev pub max_backoff : ℕ
max_backoff = 5000

abbrev pub reconnect_wait : ℕ
reconnect_wait = 300

unfoldable pub next_backoff : ℕ → ℕ
next_backoff backoff =
    let doubled = backoff * 2 in if ltb max_backoff doubled then max_backoff else doubled

-- The `onState` callback of `RunDialClient`.
unfoldable pub on_state : {S : Type 0} → Bytes → Bool → Node S → Node S
on_state id up n =
    let m = record n { metrics = set_target_connected n.metrics id up } in
    if up
    then m
    else elim n.arbiter [ none ↦ m | some a ↦ record m { arbiter = some (release a id).0 } ]

module _ (c : CometTypes) {S : Type 0} (next : Handler c S) (chain_id : Bytes) (id : Bytes) where
  -- The new state, with the responses written.
  unfoldable pub serve_conn : Node S → List (ConnEvent c) → Outcome (Node S × List (Message c))
  serve_conn n [] = returns (n, [])
  serve_conn n (read_failed ∷ es) = returns (n, [])
  serve_conn n (received now req written ∷ es) = do
    (n', res, err) ← client_handler c next id n now req chain_id
    elim written [
      | false ↦ returns (n', [])
      | true ↦ do (n'', sent) ← serve_conn n' es; returns (n'', res ∷ sent)
    ]

  -- The new state, with the waits that went by, and whether the function has returned.
  unfoldable pub run_dial_client_from :
      ℕ → Node S → List (Attempt c) → Outcome (Node S × List ℕ × Bool)
  run_dial_client_from backoff n [] = returns (n, [], false)
  run_dial_client_from backoff n (stopped ∷ rest) = returns (n, [], true)
  run_dial_client_from backoff n (dial_failed canceled ∷ rest) =
      returns (on_state id false n, [], true)
  run_dial_client_from backoff n (dial_failed elapsed ∷ rest) = do
    (n', waits, over) ← run_dial_client_from (next_backoff backoff) (on_state id false n) rest
    returns (n', backoff ∷ waits, over)
  run_dial_client_from backoff n (connected es canceled ∷ rest) = do
    (n', sent) ← serve_conn (on_state id true n) es
    returns (on_state id false n', [], true)
  run_dial_client_from backoff n (connected es elapsed ∷ rest) = do
    (n', sent) ← serve_conn (on_state id true n) es
    (n'', waits, over) ← run_dial_client_from min_backoff (on_state id false n') rest
    returns (n'', reconnect_wait ∷ waits, over)

  unfoldable pub run_dial_client : Node S → List (Attempt c) → Outcome (Node S × List ℕ × Bool)
  run_dial_client n attempts =
      run_dial_client_from min_backoff
        (record n { metrics = set_target_connected n.metrics id false }) attempts
