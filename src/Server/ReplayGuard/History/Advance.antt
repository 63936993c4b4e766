-- ===== src/Server/ReplayGuard/History/Advance.antt =====
-- A call of `CheckAndAdvance` keeps the history safe, whether it grants, refuses or fails.
use bridge_remote_signer.Server.ReplayGuard.History.{
  advance, World, note_grant, step, top, Covers, IsSafe,
}
use bridge_remote_signer.Text.{u64_limit}
use bridge_remote_signer.Server.ReplayGuard.{
  CheckpointReplayGuard, JsonCodec, WriteStep, GuardError, Disk, check_and_advance, advanced,
}
use bridge_remote_signer.Server.ReplayGuard.Laws.{IsJson, IsGuard}
use bridge_remote_signer.Server.ReplayGuard.Atomic.{Holds, persist_locked-Holds}
use bridge_remote_signer.Base.{
  Bool, Bytes, List, Option, [], arith, inl, inr, none, ok, refl, some, true, ℕ, ◌<◌, ◌∷◌, ◌≡◌, ◌≢◌,
  ◌≤◌, ◌⊎◌,
}

module _ (codec : JsonCodec) (json : IsJson codec) (path : Bytes) where
  -- What `CheckAndAdvance` makes of a guard: it refuses, it grants and the file holds the new
  -- mark, or it fails to persist, and the file may hold either mark.
  abbrev Advanced :
      CheckpointReplayGuard → Disk → ℕ → (CheckpointReplayGuard × Disk) × Option GuardError → Type 0
  Advanced g disk ts r =
      ((ts ≤ g.high_water) × (r.0.0 ≡ g) × (r.0.1 ≡ disk) × (r.1 ≢ none))
      ⊎ ((g.high_water < ts)
          × (r.0.0 ≡ advanced g ts)
          × Holds codec json path r.0.1 (advanced g ts)
          × (r.1 ≡ none))
      ⊎ ((g.high_water < ts)
          × (r.0.0 ≡ g)
          × (Holds codec json path r.0.1 (advanced g ts) ⊎ (r.0.1 ≡ disk))
          × (r.1 ≢ none))

  advanced-IsGuard :
      (g : CheckpointReplayGuard) (ts : ℕ)
      → ts < u64_limit
      → IsGuard path g
      → IsGuard path (advanced g ts)
  unfolding advanced
  advanced-IsGuard g ts small v = record {
    named = v.named;
    at_path = v.at_path;
    ready = v.ready;
    small = small;
    memo = tt;
  }

  check_and_advance-Advanced :
      (g : CheckpointReplayGuard) (disk : Disk) (ts : ℕ) (fails : WriteStep → Bool)
      → ts < u64_limit
      → IsGuard path g
      → Advanced g disk ts (check_and_advance codec fails disk g ts)
  unfolding check_and_advance
  check_and_advance-Advanced g disk ts fails small v =
      let persisted =
        persist_locked-Holds codec json path fails disk (advanced g ts)
          (advanced-IsGuard g ts small v) in
      let named : path ≢ [] = v.named in
      let at : g.state_path ≡ path = v.at_path in
      let ready : g.loaded ≡ true = v.ready in ground arith

  abbrev pub after : World → CheckpointReplayGuard → Disk → List ℕ → World
  after w g d granted = record w { guard = g; disk = d; granted = granted }

  -- The new mark lies above all that was granted, and its guard has no memo.
  advanced-Covers :
      (w : World) (ts : ℕ) (granted : List ℕ)
      → IsSafe codec json path w
      → ts < u64_limit
      → top granted ≤ ts
      → Covers path granted w.recorded (advanced w.guard ts)
  unfolding advanced
  advanced-Covers w ts granted s small reached = record {
    is_guard = advanced-IsGuard w.guard ts small s.running.is_guard;
    above = reached;
    origin = tt;
  }

  granted-IsSafe :
      (w : World) (ts : ℕ) (g : CheckpointReplayGuard) (d : Disk)
      → IsSafe codec json path w
      → ts < u64_limit
      → w.guard.high_water < ts
      → g ≡ advanced w.guard ts
      → Holds codec json path d (advanced w.guard ts)
      → IsSafe codec json path (after w g d (ts ∷ w.granted))
  granted-IsSafe w ts g d s small beyond moved held =
      let above = s.running.above in
      let covers = advanced-Covers w ts (ts ∷ w.granted) s small (omega arith) in
      rw moved (record {
        descending = (omega arith, s.descending);
        running = covers;
        stored = advanced w.guard ts;
        loads = held;
        covering = covers;
      })

  failed-IsSafe :
      (w : World) (ts : ℕ) (g : CheckpointReplayGuard) (d : Disk)
      → IsSafe codec json path w
      → ts < u64_limit
      → w.guard.high_water < ts
      → g ≡ w.guard
      → Holds codec json path d (advanced w.guard ts) ⊎ (d ≡ w.disk)
      → IsSafe codec json path (after w g d w.granted)
  failed-IsSafe w ts g d s small beyond same (inl held) =
      let above = s.running.above in
      rw same (record {
        descending = s.descending;
        running = s.running;
        stored = advanced w.guard ts;
        loads = held;
        covering = advanced-Covers w ts w.granted s small (omega arith);
      })
  failed-IsSafe w ts g d s small beyond same (inr kept) = rw (same, kept) s

  settle :
      (w : World) (ts : ℕ) (g : CheckpointReplayGuard) (d : Disk) (e : Option GuardError)
      → ts < u64_limit
      → IsSafe codec json path w
      → Advanced w.guard w.disk ts ((g, d), e)
      → IsSafe codec json path (after w g d (note_grant e ts w.granted))
  settle w ts g d none small s (inl (_, _, _, failed)) = absurd (failed refl)
  settle w ts g d (some x) small s (inl (_, same, kept, _)) = rw (same, kept) s
  settle w ts g d none small s (inr (inl (beyond, moved, held, _))) =
      granted-IsSafe w ts g d s small beyond moved held
  settle w ts g d (some x) small s (inr (inl (_, _, _, granted))) = absurd (ground arith)
  settle w ts g d none small s (inr (inr (_, _, _, failed))) = absurd (failed refl)
  settle w ts g d (some x) small s (inr (inr (beyond, same, file, _))) =
      failed-IsSafe w ts g d s small beyond same file

  pub check_and_advance-IsSafe :
      (w : World) (ts : ℕ) (fails : WriteStep → Bool)
      → ts < u64_limit
      → IsSafe codec json path w
      → let r = check_and_advance codec fails w.disk w.guard ts in
        IsSafe codec json path (after w r.0.0 r.0.1 (note_grant r.1 ts w.granted))
  check_and_advance-IsSafe w ts fails small s =
      let r = check_and_advance codec fails w.disk w.guard ts in
      settle w ts r.0.0 r.0.1 r.1 small s
        (check_and_advance-Advanced w.guard w.disk ts fails small s.running.is_guard)

  pub advance-IsSafe :
      (w : World) (ts : ℕ) (fails : WriteStep → Bool)
      → ts < u64_limit
      → IsSafe codec json path w
      → (w' : World) × (step codec path w (advance ts fails) ≡ ok w') × IsSafe codec json path w'
  unfolding step
  advance-IsSafe w ts fails small s =
      let r = check_and_advance codec fails w.disk w.guard ts in
      (
        after w r.0.0 r.0.1 (note_grant r.1 ts w.granted),
        refl,
        check_and_advance-IsSafe w ts fails small s,
      )
