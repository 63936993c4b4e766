-- ===== src/Server/BridgeCheckpoint/Concurrent/Tests.antt =====
-- Two calls for one checkpoint at once: the guard grants the first and refuses the second, which
-- finds the signature in the memo.
use bridge_remote_signer.Base.Family.{update}
use bridge_remote_signer.Base.{
  Bool, Bytes, Option, arith, ascii, bytes_dec, false, ok, refl, some, subst, ◌≡◌,
}
use bridge_remote_signer.Text.Laws.{AreBytes}
use bridge_remote_signer.Server.BridgeCheckpoint.Tests.{
  self_address, domain, request, works, verified,
}
use bridge_remote_signer.Server.BridgeCheckpoint.Concurrent.{
  idle, granted, signed, Asked, Answer, System, do_advance, do_sign, do_record, do_lookup, Reach,
  begin, later, receive, advance, sign, memoize, look_up, first,
}
use bridge_remote_signer.Server.BridgeCheckpoint.Concurrent as Concurrent
use bridge_remote_signer.Server.BridgeCheckpoint.Concurrent.Invariant.{
  timestamps, AreDistinct, IsAsked, IsMade,
}
use bridge_remote_signer.Server.BridgeCheckpoint.Concurrent.Safety.{Reach-AreDistinct}
use bridge_remote_signer.Server.BridgeCheckpoint.Concurrent.Alone.{
  Ends, state_of, sign_bridge_checkpoint-Steps,
}
use bridge_remote_signer.Server.BridgeCheckpoint.{sign_bridge_checkpoint}
use bridge_remote_signer.Server.ReplayGuard.{
  WriteStep, CheckpointReplayGuard, new_checkpoint_replay_guard, check_and_advance, persist_locked,
  write_bytes_atomic,
}
use bridge_remote_signer.Server.ReplayGuard.Atomic.{read}
use bridge_remote_signer.Server.ReplayGuard.History.{In, start}
use bridge_remote_signer.Server.ReplayGuard.Tests.{braces, braces-IsJson}
use bridge_remote_signer.Server.Samples.{crypto, sample_signature}
use native.Mathlib.Decide.{ℕ_discrete}

abbrev path : Bytes
path = ascii "guard"

abbrev never_fails : WriteStep → Bool
never_fails s = false

abbrev both : System
both = record (first path) {
  phase =
      update (update (λ i. idle) 0 (Concurrent.verified 100 domain)) 1
        (Concurrent.verified 100 domain);
}

abbrev first_granted : System
first_granted = do_advance braces both 0 never_fails 100 domain

abbrev second_refused : System
second_refused = do_advance braces first_granted 1 never_fails 100 domain

abbrev asked : System
asked = do_sign crypto second_refused 0 (some sample_signature) 100 domain

abbrev kept : System
kept = do_record braces asked 0 never_fails 100 domain sample_signature

abbrev answered : System
answered = do_lookup kept 1 100 domain

domain_bytes : AreBytes domain
domain_bytes = ground arith

twos : (sig : Bytes) → ◌≡◌ {A = Option Bytes} (some sample_signature) (some sig) → AreBytes sig
twos sig e = let same : sample_signature ≡ sig = ground arith in subst AreBytes same (omega arith)

reached : Reach crypto braces self_address path answered
unfolding ℕ_discrete check_and_advance persist_locked write_bytes_atomic bytes_dec start
reached =
    later
      (later
        (later
          (later
            (later
              (later (later begin (receive 0 request refl (omega arith) domain_bytes verified))
                (receive 1 request refl (omega arith) domain_bytes verified))
              (advance 0 never_fails refl))
            (advance 1 never_fails refl))
          (sign 0 (some sample_signature) refl twos))
        (memoize 0 never_fails refl))
      (look_up 1 refl)

Reach-AreDistinct_example :
    AreDistinct (timestamps answered.asked)
    × ((a : Asked) → In a answered.asked → IsAsked crypto self_address a)
    × ((a : Answer)
        → In a answered.answers
        → IsMade crypto self_address answered.asked a.timestamp a.checkpoint a.signature)
    × ((g : CheckpointReplayGuard) × (new_checkpoint_replay_guard braces path
            (read answered.world.disk)
          ≡ ok g))
Reach-AreDistinct_example =
    Reach-AreDistinct crypto braces braces-IsJson self_address path (λ e. cc) reached

sign_bridge_checkpoint-Steps_case :
    Ends crypto braces self_address path
      (first path)
      3
      100
      (sign_bridge_checkpoint crypto braces self_address works (state_of (first path)) request)
sign_bridge_checkpoint-Steps_case =
    sign_bridge_checkpoint-Steps crypto braces self_address path works (first path) 3 request refl
      (omega arith, domain_bytes, λ digest. twos)
