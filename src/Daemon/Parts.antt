-- ===== src/Daemon/Parts.antt =====
-- What each step of a start gives.
use bridge_remote_signer.Base.{
  Bool, Bool-cases, Bytes, Option, Option-cases, Result-cases, [], ap, arith, bytes_dec,
  if◌then◌else◌, inl, inr, ltb_ℤ, none, ok, pos, pos_part, refl, some, subst, true, ℤ, ◌<ℤ◌, ◌==◌,
  ◌↔◌, ◌∙◌, ◌≡◌, ◌≢◌, ◌⊎◌, bytes_eq, nat_eq,
}
use bridge_remote_signer.Config.{
  Config, ConsensusConfig, enabled, target_list, failover_timeout, checkpoint_guard_state_path,
}
use bridge_remote_signer.Consensus.ConnKey.{gen_or_load_conn_key}
use bridge_remote_signer.Consensus.Primary.{PrimaryArbiter, new_preferring_primary_arbiter}
use bridge_remote_signer.Consensus.StateFile.{
  regular, FilePv, require_state_file, load_comet_file_pv,
}
use bridge_remote_signer.Consensus.StateFile.Laws.{start_sound}
use bridge_remote_signer.Server.ReplayGuard.{new_checkpoint_replay_guard}
use bridge_remote_signer.Signer.Types.{Signer}
use bridge_remote_signer.Tls.{TlsConfig, new_server_credentials}
use bridge_remote_signer.Tls.Laws.{IsMutualTls, new_server_credentials-IsMutualTls}
use bridge_remote_signer.Daemon.{
  has_election, Machine, ConsensusPlane, Server, elect, start_consensus, start_plane,
  build_credentials, new_server, signer_key,
}

module _ (m : Machine) where
  -- The last-sign state is the one in the state file.
  abbrev pub IsResumed : FilePv m.pv_codec → Type 0
  IsResumed pv =
      (b : Bytes) × (m.state_entry ≡ regular b)
      × (m.pv_codec.unmarshal_state b ≡ some pv.last_sign_state)

  -- An election exactly for a configured failover timeout, with the targets as its order if wanted.
  abbrev pub IsElection : ConsensusConfig → Option PrimaryArbiter → Type 0
  IsElection c arbiter =
      ((c.primary_failover_timeout ≡ []) × (arbiter ≡ none))
      ⊎ ((d : ℤ) × (c.primary_failover_timeout ≢ [])
          × (m.config_env.parse_duration c.primary_failover_timeout ≡ some d)
          × (pos 0 <ℤ d)
          × (arbiter
              ≡ some (
                  new_preferring_primary_arbiter (pos_part d)
                    (if c.prefer_target_order then target_list c else []))))

  abbrev pub IsPlane : ConsensusConfig → Option (ConsensusPlane m) → Type 0
  IsPlane c plane =
      ((c.key_file ≡ []) × (plane ≡ none))
      ⊎ ((p : ConsensusPlane m) × (c.key_file ≢ [])
          × (plane ≡ some p)
          × (p.targets ≡ target_list c)
          × IsResumed p.pv
          × IsElection c p.arbiter)

  abbrev pub IsTransport : Config → Option (TlsConfig m.tls) → Type 0
  IsTransport c creds =
      ((c.tls.insecure ≡ true) × (creds ≡ none))
      ⊎ ((t : TlsConfig m.tls) × (creds ≡ some t)
          × IsMutualTls m.tls c.tls.ca_cert c.tls.server_cert c.tls.server_key t)

  failover_timeout_sound :
      (c : ConsensusConfig) (d : ℤ)
      → failover_timeout m.config_env c ≡ ok d
      → IsElection c (elect m d c.prefer_target_order (target_list c))
  unfolding failover_timeout elect
  failover_timeout_sound c d h = elim (bytes_dec c.primary_failover_timeout []) [
    | yes e ↦ inl (e, ground arith)
    | no e ↦ elim (Option-cases (m.config_env.parse_duration c.primary_failover_timeout)) [
      | inl f ↦ ground arith
      | inr (d', f) ↦
          let same : d' ≡ d = ground arith in
          let positive : pos 0 <ℤ d = ground arith in
          let starts : ltb_ℤ (pos 0) d ≡ true = ground arith in
          inr (d, e, f ∙ ap some same, positive, rw starts refl)
    ]
  ]

  after_key :
      (cfg : Config) (p : ConsensusPlane m) (conn_key : Bytes) (pv : FilePv m.pv_codec)
      → (gen_or_load_conn_key m.key_codec m.conn_key_fails m.conn_key_end m.fresh_conn_key
          m.conn_key_entry).1
        ≡ ok conn_key
      → require_state_file m.state_stat_fails m.state_entry ≡ ok tt
      → load_comet_file_pv m.pv_codec m.key_json m.state_read_fails m.state_entry ≡ ok pv
      → start_consensus m cfg ≡ ok p
      → (p.targets ≡ target_list cfg.consensus)
        × IsResumed p.pv
        × IsElection cfg.consensus p.arbiter
  unfolding start_consensus
  after_key cfg p conn_key pv e f g h = elim (Option-cases (m.pv_address pv)) [
    | inl k ↦ ground arith
    | inr (val_addr, k) ↦ elim (Result-cases (failover_timeout m.config_env cfg.consensus)) [
      | inl (x, l) ↦ ground arith
      | inr (d, l) ↦
          let same : pv ≡ p.pv = ground arith in
          let elected : elect m d cfg.consensus.prefer_target_order (target_list cfg.consensus)
              ≡ p.arbiter =
            ground arith in
          (
            ground arith,
            subst IsResumed same (
                start_sound m.pv_codec m.state_stat_fails m.state_read_fails m.key_json
                  m.state_entry pv f g),
            subst (IsElection cfg.consensus) elected (failover_timeout_sound cfg.consensus d l),
          )
    ]
  ]

  start_consensus_sound :
      (cfg : Config) (p : ConsensusPlane m)
      → start_consensus m cfg ≡ ok p
      → (p.targets ≡ target_list cfg.consensus)
        × IsResumed p.pv
        × IsElection cfg.consensus p.arbiter
  unfolding start_consensus
  start_consensus_sound cfg p h =
      elim (Result-cases
        (gen_or_load_conn_key m.key_codec m.conn_key_fails m.conn_key_end m.fresh_conn_key
          m.conn_key_entry).1) [
            | inl (x, e) ↦ ground arith
            | inr (conn_key, e) ↦
                elim (Result-cases (require_state_file m.state_stat_fails m.state_entry)) [
                  | inl (x, f) ↦ ground arith
                  | inr (tt, f) ↦
                      elim (Result-cases (
                        load_comet_file_pv m.pv_codec m.key_json m.state_read_fails
                          m.state_entry)) [
                            | inl (x, g) ↦ ground arith
                            | inr (pv, g) ↦ after_key cfg p conn_key pv e f g h
                          ]
                ]
          ]

  pub start_plane_sound :
      (cfg : Config) (plane : Option (ConsensusPlane m))
      → start_plane m cfg ≡ ok plane
      → IsPlane cfg.consensus plane
  unfolding start_plane enabled
  start_plane_sound cfg plane h = elim (Bool-cases (cfg.consensus.key_file == [])) [
    | inl e ↦ inl (ground arith, ground arith)
    | inr e ↦ elim (Result-cases (start_consensus m cfg)) [
      | inl (x, f) ↦ ground arith
      | inr (p, f) ↦
          let (targets, resumed, elected) = start_consensus_sound cfg p f in
          inr (p, (λ k. ground arith), ground arith, targets, resumed, elected)
    ]
  ]

  -- `PrimaryHost` is given for a configured election, and only then.
  pub has_election_iff :
      (c : ConsensusConfig) (plane : Option (ConsensusPlane m))
      → IsPlane c plane
      → (has_election m plane ≡ true) ↔ ((c.key_file ≢ []) × (c.primary_failover_timeout ≢ []))
  has_election_iff c plane (inl (no_key, e)) =
      rw e (λ h. absurd (ground arith), λ both. absurd (both.0 no_key))
  has_election_iff c plane (inr (p, key, e, targets, resumed, inl (unset, f))) =
      rw (e, f) (λ h. absurd (ground arith), λ both. absurd (both.1 unset))
  has_election_iff c plane (inr (p, key, e, targets, resumed, inr (d, set, parsed, positive, f))) =
      rw (e, f) (λ h. (key, set), λ both. refl)

  pub build_credentials_sound :
      (cfg : Config) (creds : Option (TlsConfig m.tls))
      → build_credentials m cfg ≡ ok creds
      → IsTransport cfg creds
  unfolding build_credentials
  build_credentials_sound cfg creds h = elim (Bool-cases cfg.tls.insecure) [
    | inl e ↦ inl (e, ground arith)
    | inr e ↦
        elim (Result-cases
          (new_server_credentials m.tls cfg.tls.ca_cert cfg.tls.server_cert cfg.tls.server_key)) [
            | inl (x, f) ↦ ground arith
            | inr (t, f) ↦ inr (
              t,
              ground arith,
              new_server_credentials-IsMutualTls m.tls cfg.tls.ca_cert cfg.tls.server_cert
                  cfg.tls.server_key t f,
            )
          ]
  ]

  pub new_server_sound :
      (s : Signer) (cfg : Config) (creds : Option (TlsConfig m.tls)) (gated : Bool) (srv : Server m)
      → new_server m s cfg creds gated ≡ ok srv
      → let path = checkpoint_guard_state_path m.config_env cfg in
        (srv.credentials ≡ creds)
        × (srv.primary_gated ≡ gated)
        × (new_checkpoint_replay_guard m.json path (m.read_guard path) ≡ ok srv.guard)
  unfolding new_server
  new_server_sound s cfg creds gated srv h =
      let path : Bytes = checkpoint_guard_state_path m.config_env cfg in
      elim (Result-cases (signer_key m s)) [
        | inl (x, e) ↦ ground arith
        | inr (key, e) ↦
            elim (Result-cases (new_checkpoint_replay_guard m.json path (m.read_guard path))) [
              | inl (x, f) ↦ ground arith
              | inr (guard, f) ↦ (ground arith, ground arith, ground arith)
            ]
      ]
