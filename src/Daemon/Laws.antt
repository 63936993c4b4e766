-- ===== src/Daemon/Laws.antt =====
-- What holds of every daemon that has come up.
use bridge_remote_signer.Base.{
  Bytes, Result-cases, [], arith, inl, inr, ok, refl, some, subst, sym, true, ◌↔◌, ◌≡◌, ◌≢◌,
}
use bridge_remote_signer.Config.{Config, checkpoint_guard_state_path}
use bridge_remote_signer.Config.Validate.{load}
use bridge_remote_signer.Config.Validate.Load.{IsLoaded, load-IsValid}
use bridge_remote_signer.Logging.{new_logger}
use bridge_remote_signer.Server.ReplayGuard.{new_checkpoint_replay_guard}
use bridge_remote_signer.Signer.Types.{Signer, new_signer}
use bridge_remote_signer.Daemon.{
  Machine, Running, to_map, start_plane, build_credentials, has_election, new_server, run_with,
  run_daemon, signer_key,
}
use bridge_remote_signer.Daemon.Parts.{
  IsPlane, IsTransport, has_election_iff, start_plane_sound, build_credentials_sound,
  new_server_sound,
}

module _ (m : Machine) where
  pub record IsRunning (path : Bytes) (r : Running m) : Type 0 where
    pub configured : IsLoaded m.config_env path r.config
    pub chosen :
        new_signer m.registry r.config.signer.backend (to_map r.config.signer) ≡ ok r.signer
    pub plane : IsPlane m r.config.consensus r.plane
    pub transport : IsTransport m r.config r.server.credentials
    pub gated :
        (r.server.primary_gated ≡ true)
        ↔ ((r.config.consensus.key_file ≢ []) × (r.config.consensus.primary_failover_timeout ≢ []))
    pub guarded :
        let path = checkpoint_guard_state_path m.config_env r.config in
        new_checkpoint_replay_guard m.json path (m.read_guard path) ≡ ok r.server.guard

  -- What `run_with` gives, apart from what the configuration and the registry say.
  run_with_sound :
      (cfg : Config) (s : Signer) (r : Running m)
      → run_with m cfg s ≡ ok r
      → (r.config ≡ cfg)
        × (r.signer ≡ s)
        × IsPlane m cfg.consensus r.plane
        × IsTransport m cfg r.server.credentials
        × (r.server.primary_gated ≡ has_election m r.plane)
        × (let path = checkpoint_guard_state_path m.config_env cfg in
            new_checkpoint_replay_guard m.json path (m.read_guard path) ≡ ok r.server.guard)
  unfolding run_with
  run_with_sound cfg s r h = elim (Result-cases (signer_key m s)) [
    | inl (x, e) ↦ ground arith
    | inr (key, e) ↦ elim (Result-cases (start_plane m cfg)) [
      | inl (x, f) ↦ ground arith
      | inr (plane, f) ↦ elim (Result-cases (build_credentials m cfg)) [
        | inl (x, g) ↦ ground arith
        | inr (creds, g) ↦ elim (Result-cases (new_server m s cfg creds (has_election m plane))) [
          | inl (x, k) ↦ ground arith
          | inr (srv, k) ↦
              let built : record { config = cfg; signer = s; plane = plane; server = srv } ≡ r =
                ground arith in
              let (shown, gated, guarded) =
                new_server_sound m s cfg creds (has_election m plane) srv k in
              subst
                (λ r.
                  (r.config ≡ cfg)
                  × (r.signer ≡ s)
                  × IsPlane m cfg.consensus r.plane
                  × IsTransport m cfg r.server.credentials
                  × (r.server.primary_gated ≡ has_election m r.plane)
                  × (let path = checkpoint_guard_state_path m.config_env cfg in
                      new_checkpoint_replay_guard m.json path (m.read_guard path)
                      ≡ ok r.server.guard))
                built
                (
                  refl,
                  refl,
                  start_plane_sound m cfg plane f,
                  subst (IsTransport m cfg) (sym shown) (build_credentials_sound m cfg creds g),
                  gated,
                  guarded,
                )
        ]
      ]
    ]
  ]

  -- A daemon comes up only from a valid configuration, with the signer of its backend. With a
  -- consensus key it dials the configured targets, resumes from the state file, which is there, and
  -- holds an election exactly if a failover timeout is configured. The vote-extension RPCs are gated
  -- exactly if both are configured. Its gRPC server demands a client certificate of the CA unless TLS is turned off.
  pub run_daemon-IsRunning :
      (path : Bytes) (r : Running m) → run_daemon m path ≡ ok (some r) → IsRunning path r
  unfolding run_daemon
  run_daemon-IsRunning path r h = elim (Result-cases (load m.config_env path)) [
    | inl (x, e) ↦ ground arith
    | inr (cfg, e) ↦ elim (Result-cases (new_logger cfg.log.level cfg.log.format)) [
      | inl (x, f) ↦ ground arith
      | inr (logger, f) ↦
          elim (Result-cases (new_signer m.registry cfg.signer.backend (to_map cfg.signer))) [
            | inl (x, g) ↦ ground arith
            | inr (s, g) ↦ elim (Result-cases (run_with m cfg s)) [
              | inl (x, k) ↦ ground arith
              | inr (r', k) ↦
                  let same : r' ≡ r = ground arith in
                  let (config, signer, plane, transport, gated, guarded) =
                    run_with_sound cfg s r' k in
                  subst (IsRunning path) same (record {
                    configured = rw config ((load-IsValid m.config_env path cfg).0 e);
                    chosen = rw (config, signer) g;
                    plane = rw config plane;
                    transport = rw config transport;
                    gated = rw config (
                        subst
                          (λ b. (b ≡ true) ↔ (
                            (cfg.consensus.key_file ≢ [])
                            × (cfg.consensus.primary_failover_timeout ≢ [])))
                          (sym gated) (has_election_iff m cfg.consensus r'.plane plane));
                    guarded = rw config guarded;
                  })
            ]
          ]
    ]
  ]
