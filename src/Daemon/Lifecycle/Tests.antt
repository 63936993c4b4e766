-- ===== src/Daemon/Lifecycle/Tests.antt =====
-- Two dial clients, a failure of the gRPC server's listener, and a signal that comes while the servers
-- are stopped.
use bridge_remote_signer.Base.{Bytes, Option, [], ascii, inl, none, refl, some, true, ◌∷◌, ◌≡◌, ◌⊎◌}
use bridge_remote_signer.Daemon.Lifecycle.{
  StopCause, server_exited, StopError, forced_exit, shutdown, listen_failed, grpc, draining,
  finished, Life, launched, Reach, begin, later, grpc_exits, take_exit, client_ends, drained,
  signal, forces, start_grpc,
}
use bridge_remote_signer.Daemon.Lifecycle.Laws.{IsEnd}
use bridge_remote_signer.Daemon.Lifecycle.Ends.{EndsQuietly, Reach-IsEnd, Reach-EndsQuietly}

abbrev in_use : Bytes
in_use = ascii "address already in use"

abbrev cause : StopCause
cause = server_exited grpc (some (listen_failed in_use))

abbrev begun : Life
begun = record (launched 2) {
  phase = draining cause;
  canceled = true;
  seen = (grpc, some (listen_failed in_use)) ∷ [];
}

begun-Reach : Reach 2 begun
unfolding start_grpc
begun-Reach = later (later begin (grpc_exits (some in_use) none)) (take_exit refl refl)

abbrev forced : Life
forced = record begun { phase = finished (some forced_exit); live = 0; signals = 0; arrived = 1 }

-- The first signal of all ends the process by force, and the server's error is lost.
forced-Reach : Reach 2 forced
unfolding shutdown
forced-Reach =
    later
      (later
        (later (later (later begun-Reach (client_ends refl refl)) (client_ends refl refl))
          (drained refl refl))
        signal)
      (forces refl refl)

Reach-IsEnd_example :
    ((forced.grpc_stopped ≡ true) ⊎ (forced.health_stopped ≡ true) → forced.live ≡ 0)
    × ((o : Option StopError) → forced.phase ≡ finished o → (forced.live ≡ 0) × IsEnd forced o)
Reach-IsEnd_example = Reach-IsEnd forced-Reach

Reach-EndsQuietly_example : EndsQuietly begun cause
Reach-EndsQuietly_example = Reach-EndsQuietly cause begun-Reach (inl refl)
