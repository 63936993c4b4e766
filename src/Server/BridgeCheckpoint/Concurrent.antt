-- ===== src/Server/BridgeCheckpoint/Concurrent.antt =====
-- server/server.go: calls of `SignBridgeCheckpoint` that run at the same time. Each use of the guard
-- holds its mutex and is one step, as is the backend's call; between two steps of a call any other
-- call may go on, and the server may restart, which loses the calls.
pub mod Invariant
pub mod Calls
pub mod Signing
pub mod Safety
pub mod Alone
mod Tests
use bridge_remote_signer.Base.Family.{update}
use bridge_remote_signer.Base.{
  Bool, Bytes, List, Option, [], if◌then◌else◌, length, none, ok, some, ℕ, ◌<◌, ◌==◌, ◌∷◌, ◌≡◌,
  bytes_eq, nat_eq,
}
use bridge_remote_signer.Text.{u64_limit}
use bridge_remote_signer.Text.Laws.{AreBytes}
use bridge_remote_signer.Server.Crypto.{Crypto}
use bridge_remote_signer.Server.BridgeCheckpoint.{CheckpointRequest, verify_checkpoint}
use bridge_remote_signer.Server.ReplayGuard.{
  JsonCodec, WriteStep, GuardError, replay_rejected, CheckpointReplayGuard,
  new_checkpoint_replay_guard, check_and_advance, cached_signature, record_signature,
}
use bridge_remote_signer.Server.ReplayGuard.Atomic.{read}
use bridge_remote_signer.Server.ReplayGuard.History.{World, note_grant, start}
use native.Mathlib.Decide.{ℕ_discrete}
use mathlib.Core.Logic.{ite}

-- Where a call stands: nowhere, or before its `CheckAndAdvance`, `CachedSignature`, `SignRaw` or
-- `RecordSignature`.
pub data Phase : Type 0 where
  idle : Phase
  verified : (ts : ℕ) (checkpoint : Bytes) → Phase
  refused : (ts : ℕ) (checkpoint : Bytes) → Phase
  granted : (ts : ℕ) (checkpoint : Bytes) → Phase
  signed : (ts : ℕ) (checkpoint sig : Bytes) → Phase

-- What the backend was given, for which timestamp, and what it said.
pub record Asked : Type 0 where
  pub timestamp : ℕ
  pub digest : Bytes
  pub reply : Option Bytes

pub record Answer : Type 0 where
  pub timestamp : ℕ
  pub checkpoint : Bytes
  pub signature : Bytes

-- The guard with its history, the calls by a number, and the logs, newest first.
pub record System : Type 0 where
  pub world : World
  pub phase : ℕ → Phase
  pub asked : List Asked
  pub answers : List Answer

abbrev pub after_advance : Option GuardError → ℕ → Bytes → Phase
after_advance none ts checkpoint = granted ts checkpoint
after_advance (some (replay_rejected ts' mark)) ts checkpoint = refused ts checkpoint
after_advance (some _) ts checkpoint = idle

abbrev pub after_sign : Option Bytes → ℕ → Bytes → Phase
after_sign none ts checkpoint = idle
after_sign (some sig) ts checkpoint = if length sig == 64 then signed ts checkpoint sig else idle

abbrev pub after_lookup : Option Bytes → ℕ → Bytes → List Answer → List Answer
after_lookup none ts checkpoint answers = answers
after_lookup (some sig) ts checkpoint answers =
    record { timestamp = ts; checkpoint = checkpoint; signature = sig } ∷ answers

-- The step of call `i` at each phase.
abbrev pub do_advance : JsonCodec → System → ℕ → (WriteStep → Bool) → ℕ → Bytes → System
do_advance codec s i fails ts checkpoint =
    let r = check_and_advance codec fails s.world.disk s.world.guard ts in
    record s {
      world = record s.world {
        guard = r.0.0;
        disk = r.0.1;
        granted = note_grant r.1 ts s.world.granted;
      };
      phase = update s.phase i (after_advance r.1 ts checkpoint);
    }

abbrev pub do_lookup : System → ℕ → ℕ → Bytes → System
do_lookup s i ts checkpoint = record s {
  phase = update s.phase i idle;
  answers = after_lookup (cached_signature s.world.guard ts checkpoint) ts checkpoint s.answers;
}

abbrev pub do_sign : Crypto → System → ℕ → Option Bytes → ℕ → Bytes → System
do_sign c s i reply ts checkpoint = record s {
  phase = update s.phase i (after_sign reply ts checkpoint);
  asked = record { timestamp = ts; digest = c.sha256 checkpoint; reply = reply } ∷ s.asked;
}

abbrev pub do_record : JsonCodec → System → ℕ → (WriteStep → Bool) → ℕ → Bytes → Bytes → System
do_record codec s i fails ts checkpoint sig =
    let r = record_signature codec fails s.world.disk s.world.guard ts checkpoint sig in
    record s {
      world = record s.world {
        guard = r.0.0;
        disk = r.0.1;
        recorded = (ts, checkpoint, sig) ∷ s.world.recorded;
      };
      phase = update s.phase i idle;
      answers = record { timestamp = ts; checkpoint = checkpoint; signature = sig } ∷ s.answers;
    }

abbrev pub do_reboot : System → CheckpointReplayGuard → System
do_reboot s g = record s { world = record s.world { guard = g }; phase = λ i. idle }

-- Values as Go has them are bytes, and timestamps of 64 bits.
pub data Step (c : Crypto) (codec : JsonCodec) (self_evm_addr path : Bytes) (s : System)
    : System → Type 0 where
  receive :
      (i : ℕ) (req : CheckpointRequest) {checkpoint : Bytes}
      → s.phase i ≡ idle
      → req.validator_timestamp < u64_limit
      → AreBytes req.expected_checkpoint
      → verify_checkpoint c self_evm_addr req ≡ ok checkpoint
      → Step c codec self_evm_addr path s
          (record s { phase = update s.phase i (verified req.validator_timestamp checkpoint) })
  advance :
      (i : ℕ) (fails : WriteStep → Bool) {ts : ℕ} {checkpoint : Bytes}
      → s.phase i ≡ verified ts checkpoint
      → Step c codec self_evm_addr path s (do_advance codec s i fails ts checkpoint)
  look_up :
      (i : ℕ) {ts : ℕ} {checkpoint : Bytes}
      → s.phase i ≡ refused ts checkpoint
      → Step c codec self_evm_addr path s (do_lookup s i ts checkpoint)
  sign :
      (i : ℕ) (reply : Option Bytes) {ts : ℕ} {checkpoint : Bytes}
      → s.phase i ≡ granted ts checkpoint
      → ((sig : Bytes) → reply ≡ some sig → AreBytes sig)
      → Step c codec self_evm_addr path s (do_sign c s i reply ts checkpoint)
  memoize :
      (i : ℕ) (fails : WriteStep → Bool) {ts : ℕ} {checkpoint sig : Bytes}
      → s.phase i ≡ signed ts checkpoint sig
      → Step c codec self_evm_addr path s (do_record codec s i fails ts checkpoint sig)
  reboot :
      {g : CheckpointReplayGuard}
      → new_checkpoint_replay_guard codec path (read s.world.disk) ≡ ok g
      → Step c codec self_evm_addr path s (do_reboot s g)

-- A server that is started with no file.
abbrev pub first : Bytes → System
first path = record { world = start path; phase = λ i. idle; asked = []; answers = [] }

-- The states that can come about.
pub data Reach (c : Crypto) (codec : JsonCodec) (self_evm_addr path : Bytes) : System → Type 0 where
  begin : Reach c codec self_evm_addr path (first path)
  later :
      {s t : System}
      → Reach c codec self_evm_addr path s
      → Step c codec self_evm_addr path s t
      → Reach c codec self_evm_addr path t
