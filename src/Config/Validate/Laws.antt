-- ===== src/Config/Validate/Laws.antt =====
-- The rules for a configuration, and the groups of checks that accept exactly what meets them.
use bridge_remote_signer.Config.Validate.{
  check_log, check_signer, check_rpcs, check_consensus, check_tls, check_guard, check_server,
  signs_checkpoints,
}
use bridge_remote_signer.Config.{
  Environment, is_one_of, SignerConfig, TlsConfig, Config, ConsensusConfig, require,
  known_rpc_short_names, checkpoint_guard_state_path, enabled, failover_timeout, ServerConfig,
  LogConfig,
}
use bridge_remote_signer.Base.{
  All, Any, Bool, Bytes, List, Option-cases, Result-cases, [], arith, ascii, bytes_dec, false, inl,
  inr, lookup, ok, pos, some, true, ℤ, ◌<ℤ◌, ◌↔◌, ◌∷◌, ◌≡◌, ◌≢◌, ◌⊎◌,
}

is_one_of-Any :
    (name : Bytes) (ns : List Bytes) → (is_one_of name ns ≡ true) ↔ Any (λ n. n ≡ name) ns
unfolding is_one_of
is_one_of-Any name [] = ground arith
is_one_of-Any name (n ∷ ns) = ground (arith, is_one_of-Any name ns)

module _ (env : Environment) where
  -- A file backend with a keyring directory that exists and a key name, or a DSM backend with an
  -- endpoint, an API key and a key's id or name.
  abbrev pub IsSigner : SignerConfig → Type 0
  IsSigner s =
      ((s.backend ≡ ascii "file")
        × (s.keyring_dir ≢ [])
        × (env.stat s.keyring_dir ≡ true)
        × (s.key_name ≢ []))
      ⊎ ((s.backend ≡ ascii "fortanixdsm")
          × (s.dsm_api_endpoint ≢ [])
          × (s.dsm_api_key ≢ [])
          × ((s.dsm_key_id ≢ []) ⊎ (s.dsm_key_name ≢ [])))

  abbrev pub IsPresent : Bytes → Type 0
  IsPresent path = (path ≢ []) × (env.stat path ≡ true)

  abbrev pub IsTls : TlsConfig → Type 0
  IsTls t =
      (t.insecure ≡ true) ⊎ (IsPresent t.ca_cert × IsPresent t.server_cert × IsPresent t.server_key)

  abbrev pub IsFailover : ConsensusConfig → Type 0
  IsFailover c =
      (c.primary_failover_timeout ≡ [])
      ⊎ ((d : ℤ) × (env.parse_duration c.primary_failover_timeout ≡ some d) × (pos 0 <ℤ d))

  -- With a consensus key: a chain id, a state file, targets and a failover timeout that is absent
  -- or positive.
  abbrev pub IsConsensus : Config → Type 0
  IsConsensus c =
      (c.consensus.key_file ≡ [])
      ⊎ ((c.chain_id ≢ [])
          × (c.consensus.state_file ≢ [])
          × (c.consensus.targets ≢ [])
          × IsFailover c.consensus)

  pub record IsValid (c : Config) : Type 0 where
    pub signer : IsSigner c.signer
    pub listens : c.server.listen_addr ≢ []
    pub timeout : pos 0 <ℤ c.server.request_timeout
    pub tls : IsTls c.tls
    pub rpcs : All (λ r. Any (λ n. n ≡ r.0) known_rpc_short_names) c.server.enabled_rpcs
    pub guarded :
        (lookup (ascii "sign_bridge_checkpoint") c.server.enabled_rpcs ≡ some false)
        ⊎ (checkpoint_guard_state_path env c ≢ [])
    pub level :
        Any
          (λ n. n ≡ c.log.level)
          (ascii "debug" ∷ ascii "info" ∷ ascii "warn" ∷ ascii "error" ∷ [])
    pub format : Any (λ n. n ≡ c.log.format) (ascii "json" ∷ ascii "text" ∷ [])
    pub consensus : IsConsensus c

  pub check_signer-IsSigner : (s : SignerConfig) → (check_signer env s ≡ ok tt) ↔ IsSigner s
  unfolding check_signer require
  check_signer-IsSigner s =
      (λ h. ground arith, λ v. elim v [ inl f ↦ ground arith | inr d ↦ ground arith ])

  pub check_server_lem :
      (s : ServerConfig)
      → (check_server s ≡ ok tt) ↔ ((s.listen_addr ≢ []) × (pos 0 <ℤ s.request_timeout))
  unfolding check_server require
  check_server_lem s = ground arith

  pub check_tls-IsTls : (t : TlsConfig) → (check_tls env t ≡ ok tt) ↔ IsTls t
  unfolding check_tls require
  check_tls-IsTls t = ground arith

  pub check_rpcs-All :
      (rpcs : List (Bytes × Bool))
      → (check_rpcs rpcs ≡ ok tt) ↔ All (λ r. Any (λ n. n ≡ r.0) known_rpc_short_names) rpcs
  unfolding check_rpcs
  check_rpcs-All [] = ground arith
  check_rpcs-All ((name, on) ∷ rpcs) =
      let known = is_one_of-Any name known_rpc_short_names in
      ground (arith, check_rpcs-All rpcs, known)

  pub check_guard_lem :
      (c : Config)
      → (check_guard env c ≡ ok tt) ↔ (
          (lookup (ascii "sign_bridge_checkpoint") c.server.enabled_rpcs ≡ some false)
          ⊎ (checkpoint_guard_state_path env c ≢ []))
  unfolding check_guard signs_checkpoints
  check_guard_lem c =
      elim (Option-cases (lookup (ascii "sign_bridge_checkpoint") c.server.enabled_rpcs)) [
        | inl e ↦ ground arith
        | inr (b, e) ↦ ground arith
      ]

  pub check_log_lem :
      (l : LogConfig)
      → (check_log l ≡ ok tt) ↔ (
          Any (λ n. n ≡ l.level) (ascii "debug" ∷ ascii "info" ∷ ascii "warn" ∷ ascii "error" ∷ [])
          × Any (λ n. n ≡ l.format) (ascii "json" ∷ ascii "text" ∷ []))
  unfolding check_log
  check_log_lem l =
      let level =
        is_one_of-Any l.level (ascii "debug" ∷ ascii "info" ∷ ascii "warn" ∷ ascii "error" ∷ []) in
      let format = is_one_of-Any l.format (ascii "json" ∷ ascii "text" ∷ []) in
      ground (arith, level, format)

  -- The failover timeout passes.
  abbrev HasFailover : ConsensusConfig → Type 0
  HasFailover c = (d : ℤ) × (failover_timeout env c ≡ ok d)

  failover_timeout_lem : (c : ConsensusConfig) → HasFailover c ↔ IsFailover c
  unfolding failover_timeout
  failover_timeout_lem c = (
    λ h.
        let (d, e) = h in
        elim (Option-cases (env.parse_duration c.primary_failover_timeout)) [
          | inl none_parsed ↦ inl (ground arith)
          | inr (d', parsed) ↦ elim (bytes_dec c.primary_failover_timeout []) [
            | yes absent ↦ inl absent
            | no there ↦ inr (d', parsed, ground arith)
          ]
        ],
    λ v. elim v [
      | inl absent ↦ (pos 0, ground arith)
      | inr (d, parsed, positive) ↦ elim (bytes_dec c.primary_failover_timeout []) [
        | yes absent ↦ (pos 0, ground arith)
        | no there ↦ (d, ground arith)
      ]
    ],
  )

  pub check_consensus_sound : (c : Config) → check_consensus env c ≡ ok tt → IsConsensus c
  unfolding check_consensus require enabled
  check_consensus_sound c h = elim (bytes_dec c.consensus.key_file []) [
    | yes off ↦ inl off
    | no on ↦ elim (Result-cases (failover_timeout env c.consensus)) [
      | inl (e, refused) ↦ absurd (ground arith)
      | inr (d, passed) ↦ inr (
        ground arith,
        ground arith,
        ground arith,
        (failover_timeout_lem c.consensus).0 (d, passed),
      )
    ]
  ]

  pub check_consensus_complete : (c : Config) → IsConsensus c → check_consensus env c ≡ ok tt
  unfolding check_consensus require enabled
  check_consensus_complete c (inl off) = ground arith
  check_consensus_complete c (inr (named, state, targets, failover)) =
      let (d, passed) = (failover_timeout_lem c.consensus).1 failover in ground arith
