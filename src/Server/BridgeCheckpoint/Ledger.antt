-- ===== src/Server/BridgeCheckpoint/Ledger.antt =====
-- server/server.go: runs of `SignBridgeCheckpoint` and restarts of the server, with what the backend
-- is given. The calls come one after the other; ReplayGuard/History has the guard's steps interleaved.
pub mod Laws
mod Tests
use bridge_remote_signer.Base.{Bytes, List, Result, [], err, none, ok, some, ℕ, ◌<◌, ◌∷◌, ◌≡◌}
use bridge_remote_signer.Text.{u64_limit}
use bridge_remote_signer.Text.Laws.{AreBytes}
use bridge_remote_signer.Server.Crypto.{Crypto}
use bridge_remote_signer.Server.BridgeCheckpoint.{
  CheckpointRequest, Surroundings, sign_bridge_checkpoint, ServerState, guard_and_sign, after_guard,
  sign_verified, verify_checkpoint,
}
use bridge_remote_signer.Server.BridgeCheckpoint.Verify.{IsGenuine}
use bridge_remote_signer.Server.BridgeCheckpoint.Calls.{verify_checkpoint_ok, checkpoint-length}
use bridge_remote_signer.Server.ReplayGuard.{
  JsonCodec, GuardError, CheckpointReplayGuard, Disk, new_checkpoint_replay_guard,
  check_and_advance, fresh_guard,
}
use bridge_remote_signer.Server.ReplayGuard.Laws.{IsJson}
use bridge_remote_signer.Server.ReplayGuard.Atomic.{read}
use bridge_remote_signer.Server.ReplayGuard.History.{World, note_grant, IsSafe, IsDescending, start}
use bridge_remote_signer.Server.ReplayGuard.History.Advance.{check_and_advance-IsSafe, after}
use bridge_remote_signer.Server.ReplayGuard.History.Memo.{record_signature-IsSafe}
use bridge_remote_signer.Server.ReplayGuard.History.Runs.{start-IsSafe}

pub data Call : Type 0 where
  checkpoint_call : Surroundings → CheckpointRequest → Call
  reboot : Call

-- What the backend was given, newest first: the timestamp of the request, and the digest.
abbrev pub Ledger : Type 0
Ledger = List (ℕ × Bytes)

abbrev pub timestamps : Ledger → List ℕ
timestamps [] = []
timestamps ((ts, digest) ∷ l) = ts ∷ timestamps l

abbrev pub digests : Ledger → List Bytes
digests [] = []
digests ((ts, digest) ∷ l) = digest ∷ digests l

-- A server that is started with no file.
unfoldable pub first_state : Bytes → ServerState
first_state path = record { guard = fresh_guard path 0; disk = none; asked = [] }

module _ (c : Crypto) (codec : JsonCodec) (self_evm_addr path : Bytes) where
  unfoldable pub serve_call : ServerState → Call → Result GuardError ServerState
  serve_call st (checkpoint_call env req) =
      ok (sign_bridge_checkpoint c codec self_evm_addr env st req).0
  serve_call st reboot = elim (new_checkpoint_replay_guard codec path (read st.disk)) [
    | err e ↦ err e
    | ok g ↦ ok (record st { guard = g })
  ]

  unfoldable pub serve_calls : ServerState → List Call → Result GuardError ServerState
  serve_calls st [] = ok st
  serve_calls st (call ∷ calls) = elim (serve_call st call) [
    | err e ↦ err e
    | ok st' ↦ serve_calls st' calls
  ]

module _ (c : Crypto) (self_evm_addr : Bytes) where
  -- Values as Go has them: a 64-bit timestamp, and slices of bytes.
  abbrev pub IsProper : Call → Type 0
  IsProper (checkpoint_call env req) =
      (req.validator_timestamp < u64_limit)
      × AreBytes req.expected_checkpoint
      × ((digest sig : Bytes) → env.sign_raw digest ≡ some sig → AreBytes sig)
  IsProper reboot = Unit

  -- An entry is the hash of a checkpoint that some request genuinely described, for its timestamp.
  pub record IsGranted (entry : ℕ × Bytes) : Type 0 where
    pub req : CheckpointRequest
    pub checkpoint : Bytes
    pub genuine : IsGenuine c self_evm_addr req checkpoint
    pub at : req.validator_timestamp ≡ entry.0
    pub hash : entry.1 ≡ c.sha256 checkpoint
