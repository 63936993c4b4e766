-- ===== src/Daemon/Lifecycle.antt =====
-- cmd/bridge-signer/cmd_start.go: what runs after the parts are built, from the two servers' start
-- to the end of the process, with Start of server/server.go and of health/health.go. The goroutines
-- take their steps in any order. The servers' own work is a parameter of a step.
use bridge_remote_signer.Base.{
  Bool, Bytes, List, Option, [], false, if◌then◌else◌, ltb, none, some, suc, true, ℕ, ◌++◌, ◌+◌,
  ◌∷◌, ◌≡◌,
}
pub mod Laws
pub mod Ends
mod Tests

-- How `http.Server.ListenAndServe` ends.
pub data HttpEnd : Type 0 where
  server_closed : HttpEnd
  no_error : HttpEnd
  http_failed : Bytes → HttpEnd

pub data StartError : Type 0 where
  listen_failed : Bytes → StartError
  serve_failed : Bytes → StartError
  health_failed : Bytes → StartError

-- The server's `Start`, by the errors of `net.Listen` and `Serve`.
unfoldable pub start_grpc : Option Bytes → Option Bytes → Option StartError
start_grpc (some e) served = some (listen_failed e)
start_grpc none (some e) = some (serve_failed e)
start_grpc none none = none

-- The health checker's `Start`.
unfoldable pub start_health : HttpEnd → Option StartError
start_health server_closed = none
start_health no_error = none
start_health (http_failed e) = some (health_failed e)

pub data ServerName : Type 0 where
  grpc : ServerName
  health : ServerName

-- What ends the wait of a running daemon: a signal, or a server with its error.
pub data StopCause : Type 0 where
  signalled : StopCause
  server_exited : ServerName → Option StartError → StopCause

-- What ends the wait for the servers' own shutdown.
pub data StopEnd : Type 0 where
  both_stopped : StopEnd
  timed_out : StopEnd
  second_signal : StopEnd

pub data StopError : Type 0 where
  server_failed : ServerName → StartError → StopError
  forced_exit : StopError

unfoldable pub shutdown_reason : StopCause → Option StopError
shutdown_reason signalled = none
shutdown_reason (server_exited name none) = none
shutdown_reason (server_exited name (some e)) = some (server_failed name e)

unfoldable pub shutdown : StopCause → StopEnd → Option StopError
shutdown cause both_stopped = shutdown_reason cause
shutdown cause timed_out = shutdown_reason cause
shutdown cause second_signal = some forced_exit

-- Where the main goroutine stands: at its first select, at the wait for the dial clients, at its
-- last select, or at its end.
pub data Phase : Type 0 where
  serving : Phase
  draining : StopCause → Phase
  closing : StopCause → Phase
  finished : Option StopError → Phase

abbrev pub Exit : Type 0
Exit = ServerName × Option StartError

-- `signals` counts those in the channel, of capacity 2, and `exits` is the channel of the servers'
-- exits. `seen` and `arrived` keep all the exits, newest first, and the number of signals.
pub record Life : Type 0 where
  pub phase : Phase
  pub canceled : Bool
  pub signals : ℕ
  pub exits : List Exit
  pub live : ℕ
  pub grpc_stopped : Bool
  pub health_stopped : Bool
  pub seen : List Exit
  pub arrived : ℕ

abbrev pub deliver : ℕ → ℕ
deliver n = if ltb n 2 then n + 1 else n

-- A dial client ends only when its context is canceled, as its loop says. A signal cancels it too.
pub data Step (s : Life) : Life → Type 0 where
  signal :
      Step s (record s { canceled = true; signals = deliver s.signals; arrived = s.arrived + 1 })
  grpc_exits :
      (listened served : Option Bytes)
      → Step s (record s {
        exits = s.exits ++ (grpc, start_grpc listened served) ∷ [];
        seen = (grpc, start_grpc listened served) ∷ s.seen;
      })
  health_exits :
      (end : HttpEnd)
      → Step s (record s {
        exits = s.exits ++ (health, start_health end) ∷ [];
        seen = (health, start_health end) ∷ s.seen;
      })
  take_signal :
      {n : ℕ}
      → s.phase ≡ serving
      → s.signals ≡ suc n
      → Step s (record s { phase = draining signalled; canceled = true; signals = n })
  take_exit :
      {name : ServerName} {e : Option StartError} {rest : List Exit}
      → s.phase ≡ serving
      → s.exits ≡ (name, e) ∷ rest
      → Step s (record s { phase = draining (server_exited name e); canceled = true; exits = rest })
  client_ends : {n : ℕ} → s.canceled ≡ true → s.live ≡ suc n → Step s (record s { live = n })
  drained :
      {cause : StopCause}
      → s.phase ≡ draining cause
      → s.live ≡ 0
      → Step s (record s { phase = closing cause })
  grpc_stops :
      {cause : StopCause} → s.phase ≡ closing cause → Step s (record s { grpc_stopped = true })
  health_stops :
      {cause : StopCause} → s.phase ≡ closing cause → Step s (record s { health_stopped = true })
  all_stopped :
      {cause : StopCause}
      → s.phase ≡ closing cause
      → s.grpc_stopped ≡ true
      → s.health_stopped ≡ true
      → Step s (record s { phase = finished (shutdown cause both_stopped) })
  times_out :
      {cause : StopCause}
      → s.phase ≡ closing cause
      → Step s (record s { phase = finished (shutdown cause timed_out) })
  forces :
      {cause : StopCause} {n : ℕ}
      → s.phase ≡ closing cause
      → s.signals ≡ suc n
      → Step s (record s { phase = finished (shutdown cause second_signal); signals = n })

-- `clients` dial clients have been started.
abbrev pub launched : ℕ → Life
launched clients = record {
  phase = serving;
  canceled = false;
  signals = 0;
  exits = [];
  live = clients;
  grpc_stopped = false;
  health_stopped = false;
  seen = [];
  arrived = 0;
}

pub data Reach (clients : ℕ) : Life → Type 0 where
  begin : Reach clients (launched clients)
  later : {s t : Life} → Reach clients s → Step s t → Reach clients t

-- Steps, one after the other.
pub data Steps (s : Life) : Life → Type 0 where
  done : Steps s s
  more : {t u : Life} → Steps s t → Step t u → Steps s u
