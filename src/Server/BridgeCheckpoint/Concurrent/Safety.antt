-- ===== src/Server/BridgeCheckpoint/Concurrent/Safety.antt =====
-- What holds in every state that concurrent calls and restarts can lead to.
use bridge_remote_signer.Base.{Bytes, [], ok, ◌≡◌, ◌≢◌}
use bridge_remote_signer.Server.Crypto.{Crypto}
use bridge_remote_signer.Server.ReplayGuard.{
  JsonCodec, CheckpointReplayGuard, new_checkpoint_replay_guard,
}
use bridge_remote_signer.Server.ReplayGuard.Atomic.{read}
use bridge_remote_signer.Server.ReplayGuard.Laws.{IsJson}
use bridge_remote_signer.Server.ReplayGuard.History.{In, start}
use bridge_remote_signer.Server.ReplayGuard.History.Runs.{start-IsSafe}
use bridge_remote_signer.Server.BridgeCheckpoint.Concurrent.{
  Asked, Answer, System, Step, receive, advance, look_up, sign, memoize, reboot, first, Reach,
  begin, later,
}
use bridge_remote_signer.Server.BridgeCheckpoint.Concurrent.Invariant.{
  timestamps, AreDistinct, IsAsked, IsMade, Inv,
}
use bridge_remote_signer.Server.BridgeCheckpoint.Concurrent.Calls.{receive-Inv, advance-Inv}
use bridge_remote_signer.Server.BridgeCheckpoint.Concurrent.Signing.{
  look_up-Inv, sign-Inv, memoize-Inv, reboot-Inv,
}

module _ (c : Crypto) (codec : JsonCodec) (json : IsJson codec) (self_evm_addr path : Bytes) where
  Step-Inv :
      {s t : System}
      → Step c codec self_evm_addr path s t
      → Inv c codec json self_evm_addr path s
      → Inv c codec json self_evm_addr path t
  Step-Inv (receive i req {checkpoint} at small bytes passed) inv =
      receive-Inv c codec json self_evm_addr path inv i req checkpoint small bytes passed
  Step-Inv (advance i fails {ts} {checkpoint} at) inv =
      advance-Inv c codec json self_evm_addr path inv i fails ts checkpoint at
  Step-Inv (look_up i {ts} {checkpoint} at) inv =
      look_up-Inv c codec json self_evm_addr path inv i ts checkpoint
  Step-Inv (sign i reply {ts} {checkpoint} at bytes) inv =
      sign-Inv c codec json self_evm_addr path inv i reply ts checkpoint at bytes
  Step-Inv (memoize i fails {ts} {checkpoint} {sig} at) inv =
      memoize-Inv c codec json self_evm_addr path inv i fails ts checkpoint sig at
  Step-Inv (reboot {g} loaded) inv = reboot-Inv c codec json self_evm_addr path inv g loaded

  first-Inv : path ≢ [] → Inv c codec json self_evm_addr path (first path)
  unfolding start
  first-Inv named = record {
    safe = start-IsSafe codec json path named;
    calls = λ i. tt;
    once = λ i j ts a b e f. cc;
    given = λ a h. absurd h;
    covered = λ ts h. absurd h;
    distinct = tt;
    recorded = λ ts checkpoint sig h. absurd h;
    answered = λ a h. absurd h;
  }

  Reach-Inv :
      {s : System}
      → path ≢ []
      → Reach c codec self_evm_addr path s
      → Inv c codec json self_evm_addr path s
  Reach-Inv named begin = first-Inv named
  Reach-Inv named (later before st) = Step-Inv st (Reach-Inv named before)

  -- With a path for the guard's file, however calls of the handler interleave, whichever file writes
  -- and backend calls fail, and whenever the server restarts: no timestamp is given to the backend twice, what it is given is
  -- the hash of a checkpoint that a request genuinely described for that timestamp, every signature
  -- answered is one of 64 bytes that the backend made for the hash of the answer's checkpoint, which
  -- a request genuinely described, and the guard's file can be loaded.
  pub Reach-AreDistinct :
      {s : System}
      → path ≢ []
      → Reach c codec self_evm_addr path s
      → AreDistinct (timestamps s.asked)
        × ((a : Asked) → In a s.asked → IsAsked c self_evm_addr a)
        × ((a : Answer)
            → In a s.answers
            → IsMade c self_evm_addr s.asked a.timestamp a.checkpoint a.signature)
        × ((g : CheckpointReplayGuard) × (new_checkpoint_replay_guard codec path (read s.world.disk)
              ≡ ok g))
  Reach-AreDistinct named r =
      let inv = Reach-Inv named r in
      (inv.distinct, inv.given, inv.answered, (inv.safe.stored, inv.safe.loads))
