-- ===== src/Daemon/Lifecycle/Laws.antt =====
-- What a shutdown keeps to, whatever arrives while it runs, and that it can always come to its end.
use bridge_remote_signer.Base.{
  List, Option, [], arith, false, inl, inr, none, refl, some, subst, suc, sym, true, ℕ, ◌++◌, ◌+◌,
  ◌<◌, ◌∙◌, ◌∷◌, ◌≡◌, ◌≤◌, ◌⊎◌,
}
use bridge_remote_signer.Daemon.Lifecycle.{
  ServerName, StopCause, signalled, server_exited, StopError, server_failed, forced_exit,
  shutdown_reason, shutdown, Phase, serving, draining, closing, finished, Exit, Life, Step, signal,
  grpc_exits, health_exits, take_signal, take_exit, client_ends, drained, grpc_stops, health_stops,
  all_stopped, times_out, forces, deliver, grpc, health, start_grpc, start_health,
}
use bridge_remote_signer.Server.ReplayGuard.History.{In}

-- A cause is a signal that arrived, or an exit that happened.
abbrev pub IsCause : Life → StopCause → Type 0
IsCause s signalled = 0 < s.arrived
IsCause s (server_exited name e) = In (name, e) s.seen

-- An end without an error, one with the error of a server that failed, or one that a signal forced.
abbrev pub IsEnd : Life → Option StopError → Type 0
IsEnd s none = (0 < s.arrived) ⊎ ((name : ServerName) × In (name, none) s.seen)
IsEnd s (some (server_failed name e)) = In (name, some e) s.seen
IsEnd s (some forced_exit) = 0 < s.arrived

-- While the servers are stopped no dial client runs any more.
abbrev pub IsInPhase : Life → Phase → Type 0
IsInPhase s serving = (s.grpc_stopped ≡ false) × (s.health_stopped ≡ false)
IsInPhase s (draining cause) =
    (s.canceled ≡ true) × (s.grpc_stopped ≡ false) × (s.health_stopped ≡ false) × IsCause s cause
IsInPhase s (closing cause) = (s.live ≡ 0) × IsCause s cause
IsInPhase s (finished o) = (s.live ≡ 0) × IsEnd s o

pub record Inv (s : Life) : Type 0 where
  pub at : IsInPhase s s.phase
  pub counted : s.signals ≤ s.arrived
  pub reported : (x : Exit) → In x s.exits → In x s.seen

IsEnd-shutdown_reason :
    (s : Life) (cause : StopCause) → IsCause s cause → IsEnd s (shutdown_reason cause)
unfolding shutdown_reason
IsEnd-shutdown_reason s signalled h = inl h
IsEnd-shutdown_reason s (server_exited name none) h = inr (name, h)
IsEnd-shutdown_reason s (server_exited name (some e)) h = h

In-append : {A : Type 0} (x : A) (xs ys : List A) → In x (xs ++ ys) → In x xs ⊎ In x ys
In-append x [] ys h = inr h
In-append x (y ∷ xs) ys (inl e) = inl (inl e)
In-append x (y ∷ xs) ys (inr h) = elim (In-append x xs ys h) [ inl l ↦ inl (inr l) | inr r ↦ inr r ]

IsCause-more :
    (s t : Life) (cause : StopCause)
    → s.arrived ≤ t.arrived
    → ((x : Exit) → In x s.seen → In x t.seen)
    → IsCause s cause
    → IsCause t cause
IsCause-more s t signalled a more h = omega arith
IsCause-more s t (server_exited name e) a more h = more (name, e) h

IsEnd-more :
    (s t : Life) (o : Option StopError)
    → s.arrived ≤ t.arrived
    → ((x : Exit) → In x s.seen → In x t.seen)
    → IsEnd s o
    → IsEnd t o
IsEnd-more s t none a more (inl h) = inl (omega arith)
IsEnd-more s t none a more (inr (name, h)) = inr (name, more (name, none) h)
IsEnd-more s t (some (server_failed name e)) a more h = more (name, some e) h
IsEnd-more s t (some forced_exit) a more h = omega arith

-- More signals and exits keep what is known at a phase.
IsInPhase-more :
    (s t : Life) (p : Phase)
    → (t.live ≡ s.live) × (t.grpc_stopped ≡ s.grpc_stopped) × (t.health_stopped ≡ s.health_stopped)
    → (s.canceled ≡ true → t.canceled ≡ true)
    → s.arrived ≤ t.arrived
    → ((x : Exit) → In x s.seen → In x t.seen)
    → IsInPhase s p
    → IsInPhase t p
IsInPhase-more s t serving same c a more (g, h) = (same.1 ∙ g, same.2 ∙ h)
IsInPhase-more s t (draining cause) same c a more (k, g, h, d) =
    (c k, same.1 ∙ g, same.2 ∙ h, IsCause-more s t cause a more d)
IsInPhase-more s t (closing cause) same c a more (l, d) =
    (same.0 ∙ l, IsCause-more s t cause a more d)
IsInPhase-more s t (finished o) same c a more (l, d) = (same.0 ∙ l, IsEnd-more s t o a more d)

-- An exit is reported and noted.
exit-Inv :
    {s : Life} (x : Exit) → Inv s → Inv (record s { exits = s.exits ++ x ∷ []; seen = x ∷ s.seen })
exit-Inv {s} x inv =
    let t = record s { exits = s.exits ++ x ∷ []; seen = x ∷ s.seen } in
    record {
      at =
          IsInPhase-more s t s.phase (refl, refl, refl) (λ k. k) (omega arith) (λ y h. inr h)
            inv.at;
      counted = inv.counted;
      reported = λ y h. elim (In-append y s.exits (x ∷ []) h) [
        | inl old ↦ inr (inv.reported y old)
        | inr (inl e) ↦ inl e
        | inr (inr none_left) ↦ absurd none_left
      ];
    }

-- One client less matters only before the servers are stopped.
IsInPhase-ends :
    (s : Life) (n : ℕ) (p : Phase)
    → s.live ≡ suc n
    → IsInPhase s p
    → IsInPhase (record s { live = n }) p
IsInPhase-ends s n serving alive h = h
IsInPhase-ends s n (draining signalled) alive h = h
IsInPhase-ends s n (draining (server_exited name e)) alive h = h
IsInPhase-ends s n (closing cause) alive h = absurd (omega arith)
IsInPhase-ends s n (finished o) alive h = absurd (omega arith)

finish-Inv :
    {s : Life} (cause : StopCause) (signals : ℕ) (o : Option StopError)
    → signals ≤ s.signals
    → s.phase ≡ closing cause
    → (IsCause s cause → IsEnd s o)
    → Inv s
    → Inv (record s { phase = finished o; signals = signals })
finish-Inv {s} cause signals o fewer at ends inv =
    let (idle, h) = subst (IsInPhase s) at inv.at in
    let c = inv.counted in
    let t = record s { phase = finished o; signals = signals } in
    record {
      at = (idle, IsEnd-more s t o (omega arith) (λ x k. k) (ends h));
      counted = omega arith;
      reported = inv.reported;
    }

pub Step-Inv : {s t : Life} → Step s t → Inv s → Inv t
unfolding shutdown
Step-Inv {s} signal inv =
    let c = inv.counted in
    let t = record s { canceled = true; signals = deliver s.signals; arrived = s.arrived + 1 } in
    record {
      at =
          IsInPhase-more s t s.phase (refl, refl, refl) (λ k. refl) (omega arith) (λ x h. h) inv.at;
      counted = ground arith;
      reported = inv.reported;
    }
Step-Inv (grpc_exits listened served) inv = exit-Inv (grpc, start_grpc listened served) inv
Step-Inv (health_exits end) inv = exit-Inv (health, start_health end) inv
Step-Inv {s} (take_signal at some_signal) inv =
    let c = inv.counted in
    let (g, h) = subst (IsInPhase s) at inv.at in
    record { at = (refl, g, h, omega arith); counted = omega arith; reported = inv.reported }
Step-Inv {s} (take_exit {name} {e} at some_exit) inv =
    let (g, h) = subst (IsInPhase s) at inv.at in
    record {
      at = (refl, g, h, inv.reported (name, e) (rw some_exit (inl refl)));
      counted = inv.counted;
      reported = λ x h. inv.reported x (rw some_exit (inr h));
    }
Step-Inv {s} (client_ends {n} canceled alive) inv = record {
  at = IsInPhase-ends s n s.phase alive inv.at;
  counted = inv.counted;
  reported = inv.reported;
}
Step-Inv {s} (drained {cause} at none_live) inv =
    let (k, g, h, d) = subst (IsInPhase s) at inv.at in
    record {
      at = (
        none_live,
        IsCause-more s (record s { phase = closing cause }) cause (omega arith) (λ x k. k) d,
      );
      counted = inv.counted;
      reported = inv.reported;
    }
Step-Inv {s} (grpc_stops {cause} at) inv =
    let t = record s { grpc_stopped = true } in
    let (idle, d) = subst (IsInPhase s) at inv.at in
    record {
      at = subst (IsInPhase t) (sym at) (idle, IsCause-more s t cause (omega arith) (λ x k. k) d);
      counted = inv.counted;
      reported = inv.reported;
    }
Step-Inv {s} (health_stops {cause} at) inv =
    let t = record s { health_stopped = true } in
    let (idle, d) = subst (IsInPhase s) at inv.at in
    record {
      at = subst (IsInPhase t) (sym at) (idle, IsCause-more s t cause (omega arith) (λ x k. k) d);
      counted = inv.counted;
      reported = inv.reported;
    }
Step-Inv {s} (all_stopped {cause} at g h) inv =
    finish-Inv cause s.signals _ (omega arith) at (IsEnd-shutdown_reason s cause) inv
Step-Inv {s} (times_out {cause} at) inv =
    finish-Inv cause s.signals _ (omega arith) at (IsEnd-shutdown_reason s cause) inv
Step-Inv {s} (forces {cause} {n} at some_signal) inv =
    let c = inv.counted in finish-Inv cause n _ (omega arith) at (λ h. omega arith) inv
