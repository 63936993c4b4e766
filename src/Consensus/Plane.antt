-- ===== src/Consensus/Plane.antt =====
-- consensus/server.go: the dial clients of all targets at the same time, over one arbiter and one
-- key. The arbiter's mutex, the key's mutex and the atomic gauges make each use of them one step;
-- between two steps of a client any other may go on. `on_state` is one step: no step reads the
-- gauge that it sets beside the arbiter. A sign request with a nil payload has no step, since it
-- ends the process if an election is configured.
pub mod Laws
pub mod Serves
mod Tests
use bridge_remote_signer.Base.{
  Bytes, List, [], false, if◌then◌else◌, none, some, true, ℕ, ℤ, ◌∷◌, ◌≡◌, ◌⊎◌,
}
use bridge_remote_signer.Base.Family.{update}
use bridge_remote_signer.Metrics.{record_sign}
use bridge_remote_signer.Consensus.Primary.{PrimaryArbiter, acquire}
use bridge_remote_signer.Consensus.Types.{CometTypes, Message}
use bridge_remote_signer.Consensus.Handler.{Handler}
use bridge_remote_signer.Consensus.Gate.{Node, sign, passes, not_primary_response, delegate}
use bridge_remote_signer.Consensus.Dial.{on_state}

module _ (c : CometTypes) where
  -- Where a client stands: without a connection, before a read, or with a request before its
  -- `RecordSign` or before the handler behind the gate.
  pub data Phase : Type 0 where
    down up : Phase
    elected : Message c → Phase
    handling : Message c → Phase

  -- What a client did: a request that `Acquire` granted or refused at a time and a height, the
  -- `Release` after a failed dial or a closed connection, and a request given to the handler.
  pub data Event : Type 0 where
    won : (i now : ℕ) (req : Message c) (height : ℤ) → Event
    denied : (i now : ℕ) (height : ℤ) → Event
    lost : (i : ℕ) → Event
    handed : (i : ℕ) (req : Message c) → Event

  -- What the clients share, the clients by a number, and the log, newest first.
  pub record Plane (S : Type 0) : Type 0 where
    pub node : Node S
    pub phase : ℕ → Phase
    pub log : List Event

  abbrev pub do_connect : {S : Type 0} → (ℕ → Bytes) → Plane S → ℕ → Plane S
  do_connect target s i = record s {
    node = on_state (target i) true s.node;
    phase = update s.phase i up;
  }

  abbrev pub do_lose : {S : Type 0} → (ℕ → Bytes) → Plane S → ℕ → Plane S
  do_lose target s i = record s {
    node = on_state (target i) false s.node;
    phase = update s.phase i down;
    log = lost i ∷ s.log;
  }

  abbrev pub do_ask :
      {S : Type 0} → (ℕ → Bytes) → Plane S → ℕ → PrimaryArbiter → ℕ → Message c → ℤ → Plane S
  do_ask target s i a now req height =
      let r = acquire a now (target i) height in
      record s {
        node = record s.node { arbiter = some r.0 };
        phase = update s.phase i (if r.1 then elected req else up);
        log = (if r.1 then won i now req height else denied i now height) ∷ s.log;
      }

  abbrev pub do_note : {S : Type 0} → (ℕ → Bytes) → Plane S → ℕ → Message c → Plane S
  do_note target s i req = record s {
    node = record s.node { metrics = record_sign s.node.metrics (target i) };
    phase = update s.phase i (handling req);
  }

  abbrev pub do_handle : {S : Type 0} → Handler c S → Bytes → Plane S → ℕ → Message c → Plane S
  do_handle next chain_id s i req = record s {
    node = (delegate c next s.node req chain_id).0;
    phase = update s.phase i up;
    log = handed i req ∷ s.log;
  }

module _ (c : CometTypes) {S : Type 0} (next : Handler c S) (chain_id : Bytes)
    (target : ℕ → Bytes) where
  pub data Step (s : Plane c S) : Plane c S → Type 0 where
    dial_fails : (i : ℕ) → s.phase i ≡ down → Step s (do_lose c target s i)
    connects : (i : ℕ) → s.phase i ≡ down → Step s (do_connect c target s i)
    -- A read or a write failed.
    hangs_up : (i : ℕ) → s.phase i ≡ up → Step s (do_lose c target s i)
    -- No election is configured, or the request asks for no signature.
    goes_on :
        (i : ℕ) (req : Message c)
        → s.phase i ≡ up
        → (s.node.arbiter ≡ none) ⊎ (not_primary_response c req ≡ passes)
        → Step s (record s { phase = update s.phase i (handling req) })
    asks :
        (i now : ℕ) (req : Message c) {a : PrimaryArbiter} {refusal : Message c} {height : ℤ}
        → s.phase i ≡ up
        → s.node.arbiter ≡ some a
        → not_primary_response c req ≡ sign refusal height
        → Step s (do_ask c target s i a now req height)
    notes : (i : ℕ) {req : Message c} → s.phase i ≡ elected req → Step s (do_note c target s i req)
    handles :
        (i : ℕ) {req : Message c}
        → s.phase i ≡ handling req
        → Step s (do_handle c next chain_id s i req)

  -- The states that can come about from the node of the start.
  pub data Reach (n : Node S) : Plane c S → Type 0 where
    begin : Reach n (record { node = n; phase = λ i. down; log = [] })
    later : {s t : Plane c S} → Reach n s → Step s t → Reach n t
