-- ===== src/Server/ReplayGuard/History/Runs.antt =====
-- Whole histories, from a first start on.
use bridge_remote_signer.Server.ReplayGuard.History.{
  start, Event, advance, memoize, restart, World, step, run, IsDescending, IsRecorded, IsWellFormed,
  Covers, IsSafe,
}
use bridge_remote_signer.Server.ReplayGuard.History.Advance.{advance-IsSafe}
use bridge_remote_signer.Server.ReplayGuard.History.Memo.{record-IsSafe}
use bridge_remote_signer.Server.ReplayGuard.{JsonCodec, new_checkpoint_replay_guard, fresh_guard}
use bridge_remote_signer.Server.ReplayGuard.Laws.{IsJson}
use bridge_remote_signer.Base.{All, Bytes, List, [], arith, ok, refl, ◌∷◌, ◌≡◌, ◌≢◌}

module _ (codec : JsonCodec) (json : IsJson codec) (path : Bytes) where
  pub restart-IsSafe :
      (w : World)
      → IsSafe codec json path w
      → (w' : World) × (step codec path w restart ≡ ok w') × IsSafe codec json path w'
  unfolding step
  restart-IsSafe w s = (
    record w { guard = s.stored },
    rw (s.loads, step),
    record {
      descending = s.descending;
      running = s.covering;
      stored = s.stored;
      loads = s.loads;
      covering = s.covering;
    },
  )

  step-IsSafe :
      (w : World) (e : Event)
      → IsWellFormed e
      → IsSafe codec json path w
      → (w' : World) × (step codec path w e ≡ ok w') × IsSafe codec json path w'
  step-IsSafe w (advance ts fails) v s = advance-IsSafe codec json path w ts fails v s
  step-IsSafe w (memoize ts ckpt sig fails) v s =
      record-IsSafe codec json path w ts ckpt sig fails v s
  step-IsSafe w restart v s = restart-IsSafe w s

  run-IsSafe_from :
      (w : World) (es : List Event)
      → All IsWellFormed es
      → IsSafe codec json path w
      → (w' : World) × (run codec path w es ≡ ok w') × IsSafe codec json path w'
  unfolding run
  run-IsSafe_from w [] v s = (w, refl, s)
  run-IsSafe_from w (e ∷ es) v s =
      let (w', stepped, s') = step-IsSafe w e v.0 s in
      let (w'', ran, s'') = run-IsSafe_from w' es v.1 s' in (w'', rw (stepped, run) ran, s'')

  pub start-IsSafe : path ≢ [] → IsSafe codec json path (start path)
  unfolding start fresh_guard new_checkpoint_replay_guard
  start-IsSafe named = record {
    descending = tt;
    running = covers;
    stored = fresh_guard path 0;
    loads = ground arith;
    covering = covers;
  }
    where
      covers : Covers path [] [] (fresh_guard path 0)
      covers = record {
        is_guard = record {
          named = named;
          at_path = refl;
          ready = refl;
          small = omega arith;
          memo = tt;
        };
        above = omega arith;
        origin = tt;
      }

  -- With a path for the guard's file, whatever requests come in whatever order, whichever writes fail
  -- and whenever the process restarts: the guard always finds its file readable, the timestamps that it grants ascend
  -- strictly, so that none is granted twice, and a memo was recorded for its own timestamp.
  pub run-IsDescending :
      (es : List Event)
      → path ≢ []
      → All IsWellFormed es
      → (w : World) × (run codec path (start path) es ≡ ok w)
        × IsDescending w.granted
        × IsRecorded w.guard.high_water w.guard.signed_checkpoint w.guard.signed_signature
            w.recorded
  run-IsDescending es named v =
      let (w, ran, s) = run-IsSafe_from (start path) es v (start-IsSafe named) in
      (w, ran, s.descending, s.running.origin)
