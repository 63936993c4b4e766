-- ===== src/Daemon/Lifecycle/Ends.antt =====
-- How a daemon's process can end, and that a shutdown can always come to its end.
use bridge_remote_signer.Base.{Option, arith, inl, inr, refl, subst, suc, true, zero, ℕ, ◌≡◌, ◌⊎◌}
use bridge_remote_signer.Daemon.Lifecycle.{
  StopCause, StopError, shutdown_reason, shutdown, Phase, serving, draining, closing, finished,
  Life, client_ends, drained, grpc_stops, health_stops, all_stopped, Reach, begin, later, Steps,
  done, more,
}
use bridge_remote_signer.Daemon.Lifecycle.Laws.{IsEnd, IsInPhase, Inv, Step-Inv}

Reach-Inv : {clients : ℕ} {s : Life} → Reach clients s → Inv s
Reach-Inv begin = record { at = (refl, refl); counted = omega arith; reported = λ x h. absurd h }
Reach-Inv (later before st) = Step-Inv st (Reach-Inv before)

stopped-live :
    (s : Life) (p : Phase)
    → IsInPhase s p
    → (s.grpc_stopped ≡ true) ⊎ (s.health_stopped ≡ true)
    → s.live ≡ 0
stopped-live s serving (g, h) stopped = absurd (ground arith)
stopped-live s (draining cause) (k, g, h, d) stopped = absurd (ground arith)
stopped-live s (closing cause) (idle, d) stopped = idle
stopped-live s (finished o) (idle, d) stopped = idle

-- Whatever signals arrive and whichever servers exit, in whatever order: no server is stopped while
-- a dial client still runs. When the process ends, none runs, and it ends without an error only
-- after a signal or a server's exit without one, with a server's error only if that server failed
-- with it, and by force only after a signal.
pub Reach-IsEnd :
    {clients : ℕ} {s : Life}
    → Reach clients s
    → ((s.grpc_stopped ≡ true) ⊎ (s.health_stopped ≡ true) → s.live ≡ 0)
      × ((o : Option StopError) → s.phase ≡ finished o → (s.live ≡ 0) × IsEnd s o)
Reach-IsEnd {clients} {s} r =
    let inv = Reach-Inv r in (stopped-live s s.phase inv.at, λ o at. subst (IsInPhase s) at inv.at)

-- Steps to the end, with nothing new from outside.
abbrev pub EndsQuietly : Life → StopCause → Type 0
EndsQuietly s cause =
    (t : Life) × Steps s t
    × (t.phase ≡ finished (shutdown_reason cause))
    × (t.arrived ≡ s.arrived)
    × (t.seen ≡ s.seen)

close :
    (s₀ s : Life) (cause : StopCause)
    → Steps s₀ s
    → (s.arrived ≡ s₀.arrived) × (s.seen ≡ s₀.seen)
    → s.phase ≡ closing cause
    → EndsQuietly s₀ cause
unfolding shutdown
close s₀ s cause before same at = (
  _,
  more (more (more before (grpc_stops at)) (health_stops at)) (all_stopped at refl refl),
  refl,
  same.0,
  same.1,
)

drain :
    (n : ℕ) (s₀ s : Life) (cause : StopCause)
    → Steps s₀ s
    → (s.arrived ≡ s₀.arrived) × (s.seen ≡ s₀.seen)
    → s.phase ≡ draining cause
    → s.canceled ≡ true
    → s.live ≡ n
    → EndsQuietly s₀ cause
drain zero s₀ s cause before same at canceled alive =
    close s₀ (record s { phase = closing cause }) cause (more before (drained at alive)) same refl
drain (suc n) s₀ s cause before same at canceled alive =
    drain n s₀ (record s { live = n }) cause (more before (client_ends canceled alive)) same at
      canceled refl

-- A shutdown that has begun can always come to its end with the outcome of its cause, however many
-- dial clients still run, with no further signal and no further exit of a server.
pub Reach-EndsQuietly :
    {clients : ℕ} {s : Life} (cause : StopCause)
    → Reach clients s
    → (s.phase ≡ draining cause) ⊎ (s.phase ≡ closing cause)
    → EndsQuietly s cause
Reach-EndsQuietly {clients} {s} cause r (inl at) =
    let (canceled, g, h, d) = subst (IsInPhase s) at (Reach-Inv r).at in
    drain s.live s s cause done (refl, refl) at canceled refl
Reach-EndsQuietly {clients} {s} cause r (inr at) = close s s cause done (refl, refl) at
