-- ===== src/Daemon/Errors.antt =====
-- The errors of each step of the start.
use bridge_remote_signer.Base.{
  Any, Bool, Bytes, Option, Result, Result-cases, [], arith, ascii, err, false, inl, inr, true, ◌∷◌,
  ◌≡◌, ◌≢◌,
}
use bridge_remote_signer.Config.{Config, ConsensusConfig, ConfigError, failover_timeout, enabled}
use bridge_remote_signer.Config.Validate.{load}
use bridge_remote_signer.Config.Validate.Laws.{IsFailover, IsValid}
use bridge_remote_signer.Config.Validate.Load.{load-IsValid}
use bridge_remote_signer.Logging.{LogError, new_logger, parse_level, parse_format}
use bridge_remote_signer.Signer.Types.{Signer, new_signer}
use bridge_remote_signer.Tls.{TlsConfig}
use bridge_remote_signer.Daemon.{
  Machine, DaemonError, load_config, initialize_logger, initialize_signer, get_public_key,
  decompress_public_key, load_conn_key, state_file, load_validator_key, validator_address,
  parse_failover, build_tls, init_guard, to_map, start_consensus, start_plane, build_credentials,
  has_election, new_server, run_with, run_daemon, signer_key,
}

-- The errors that the checks of the configuration have already made.
abbrev pub is_ruled_out : DaemonError → Bool
is_ruled_out (load_config e) = false
is_ruled_out (initialize_logger e) = true
is_ruled_out (initialize_signer e) = false
is_ruled_out (get_public_key e) = false
is_ruled_out decompress_public_key = false
is_ruled_out (load_conn_key e) = false
is_ruled_out (state_file e) = false
is_ruled_out (load_validator_key e) = false
is_ruled_out validator_address = false
is_ruled_out (parse_failover e) = true
is_ruled_out (build_tls e) = false
is_ruled_out (init_guard e) = false

-- A step that does not end in such an error.
abbrev Sound {ℓ} : {A : Type ℓ} → Result DaemonError A → Type ℓ
Sound step = (e : DaemonError) → step ≡ err e → is_ruled_out e ≡ false

new_logger_ok :
    (level format : Bytes)
    → Any (λ n. n ≡ level) (ascii "debug" ∷ ascii "info" ∷ ascii "warn" ∷ ascii "error" ∷ [])
    → Any (λ n. n ≡ format) (ascii "json" ∷ ascii "text" ∷ [])
    → (e : LogError) → new_logger level format ≢ err e
unfolding new_logger parse_level parse_format
new_logger_ok level format hl hf e h = ground arith

module _ (m : Machine) where
  failover_timeout_ok :
      (c : ConsensusConfig)
      → IsFailover m.config_env c
      → (e : ConfigError) → failover_timeout m.config_env c ≢ err e
  unfolding failover_timeout
  failover_timeout_ok c v e h = ground arith

  start_consensus-Sound :
      (cfg : Config) → IsFailover m.config_env cfg.consensus → Sound (start_consensus m cfg)
  unfolding start_consensus
  start_consensus-Sound cfg v e h =
      elim (Result-cases (failover_timeout m.config_env cfg.consensus)) [
        | inl (x, refused) ↦ absurd (failover_timeout_ok cfg.consensus v x refused)
        | inr (d, passed) ↦ ground arith
      ]

  start_plane-Sound : (cfg : Config) → IsValid m.config_env cfg → Sound (start_plane m cfg)
  unfolding start_plane enabled
  start_plane-Sound cfg v e h = elim v.consensus [
    | inl off ↦ ground arith
    | inr (named, state, targets, failover) ↦ elim (Result-cases (start_consensus m cfg)) [
      | inl (x, k) ↦ let safe = start_consensus-Sound cfg failover x k in ground arith
      | inr (plane, k) ↦ ground arith
    ]
  ]

  build_credentials-Sound : (cfg : Config) → Sound (build_credentials m cfg)
  unfolding build_credentials
  build_credentials-Sound cfg e h = ground arith

  signer_key-Sound : (s : Signer) → Sound (signer_key m s)
  unfolding signer_key
  signer_key-Sound s e h = ground arith

  new_server-Sound :
      (s : Signer) (cfg : Config) (creds : Option (TlsConfig m.tls)) (gated : Bool)
      → Sound (new_server m s cfg creds gated)
  unfolding new_server
  new_server-Sound s cfg creds gated e h = elim (Result-cases (signer_key m s)) [
    | inl (x, k) ↦ let safe = signer_key-Sound s x k in ground arith
    | inr (key, k) ↦ ground arith
  ]

  run_with-Sound : (cfg : Config) (s : Signer) → IsValid m.config_env cfg → Sound (run_with m cfg s)
  unfolding run_with
  run_with-Sound cfg s v e h = elim (Result-cases (signer_key m s)) [
    | inl (x, k) ↦ let safe = signer_key-Sound s x k in ground arith
    | inr (key, k) ↦ elim (Result-cases (start_plane m cfg)) [
      | inl (x, f) ↦ let safe = start_plane-Sound cfg v x f in ground arith
      | inr (plane, f) ↦ elim (Result-cases (build_credentials m cfg)) [
        | inl (x, g) ↦ let safe = build_credentials-Sound cfg x g in ground arith
        | inr (creds, g) ↦ elim (Result-cases (new_server m s cfg creds (has_election m plane))) [
          | inl (x, l) ↦
              let safe = new_server-Sound s cfg creds (has_election m plane) x l in ground arith
          | inr (srv, l) ↦ ground arith
        ]
      ]
    ]
  ]

  -- Once the configuration is loaded, neither the logger nor the failover timeout can stop the start:
  -- an error of the daemon is one of the configuration itself, the signer, a file, TLS or the guard.
  pub run_daemon-errors :
      (path : Bytes) (e : DaemonError) → run_daemon m path ≡ err e → is_ruled_out e ≡ false
  unfolding run_daemon
  run_daemon-errors path e h = elim (Result-cases (load m.config_env path)) [
    | inl (x, f) ↦ ground arith
    | inr (cfg, f) ↦
        let (p, t, read, raw, decoded, filled, valid) = (load-IsValid m.config_env path cfg).0 f in
        elim (Result-cases (new_logger cfg.log.level cfg.log.format)) [
          | inl (x, refused) ↦
              absurd (new_logger_ok cfg.log.level cfg.log.format valid.level valid.format x refused)
          | inr (logger, g) ↦
              elim (Result-cases (new_signer m.registry cfg.signer.backend (to_map cfg.signer))) [
                | inl (x, k) ↦ ground arith
                | inr (s, k) ↦ elim (Result-cases (run_with m cfg s)) [
                  | inl (x, l) ↦ let safe = run_with-Sound cfg s valid x l in ground arith
                  | inr (r, l) ↦ ground arith
                ]
              ]
        ]
  ]
