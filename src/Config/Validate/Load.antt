-- ===== src/Config/Validate/Load.antt =====
-- A configuration is loaded exactly when it meets the rules.
use bridge_remote_signer.Config.Validate.Laws.{
  IsValid, check_signer-IsSigner, check_server_lem, check_tls-IsTls, check_rpcs-All,
  check_guard_lem, check_log_lem, check_consensus_sound, check_consensus_complete,
}
use bridge_remote_signer.Config.Validate.{validate, load}
use bridge_remote_signer.Config.{Environment, Config, apply_defaults}
use bridge_remote_signer.Base.{
  Bytes, Option-cases, [], arith, inl, inr, ok, refl, some, sym, ◌↔◌, ◌≡◌, ◌≢◌,
}

module _ (env : Environment) where
  validate_sound : (c : Config) → validate env c ≡ ok tt → IsValid env c
  unfolding validate
  validate_sound c h = record {
    signer = (check_signer-IsSigner env c.signer).0 (ground arith);
    listens = ((check_server_lem env c.server).0 (ground arith)).0;
    timeout = ((check_server_lem env c.server).0 (ground arith)).1;
    tls = (check_tls-IsTls env c.tls).0 (ground arith);
    rpcs = (check_rpcs-All env c.server.enabled_rpcs).0 (ground arith);
    guarded = (check_guard_lem env c).0 (ground arith);
    level = ((check_log_lem env c.log).0 (ground arith)).0;
    format = ((check_log_lem env c.log).0 (ground arith)).1;
    consensus = check_consensus_sound env c (ground arith);
  }

  validate_complete : (c : Config) → IsValid env c → validate env c ≡ ok tt
  unfolding validate
  validate_complete c v =
      rw
        (
          (check_signer-IsSigner env c.signer).1 v.signer,
          (check_server_lem env c.server).1 (v.listens, v.timeout),
          (check_tls-IsTls env c.tls).1 v.tls,
          (check_rpcs-All env c.server.enabled_rpcs).1 v.rpcs,
          (check_guard_lem env c).1 v.guarded,
          (check_log_lem env c.log).1 (v.level, v.format),
          check_consensus_complete env c v.consensus,
        )
        refl

  -- A path that can be read and decoded to a configuration that gives this one with its defaults.
  abbrev pub IsLoaded : Bytes → Config → Type 0
  IsLoaded path c =
      (path ≢ [])
      × (text : Bytes) × (env.read_file path ≡ some text)
      × (raw : Config) × (env.unmarshal_yaml text ≡ some raw)
      × (apply_defaults raw ≡ c)
      × IsValid env c

  -- A load succeeds exactly for a path that can be read and decoded to a configuration that meets
  -- the rules once its defaults are filled in, and that is what it gives.
  pub load-IsValid : (path : Bytes) (c : Config) → (load env path ≡ ok c) ↔ IsLoaded path c
  unfolding load
  load-IsValid path c = (
    λ h. elim (Option-cases (env.read_file path)) [
      | inl e ↦ absurd (ground arith)
      | inr (text, e) ↦ elim (Option-cases (env.unmarshal_yaml text)) [
        | inl e' ↦ absurd (ground arith)
        | inr (raw, e') ↦
            let same : apply_defaults raw ≡ c = ground arith in
            let valid : validate env (apply_defaults raw) ≡ ok tt = ground arith in
            (ground arith, text, e, raw, e', same, validate_sound c (rw (sym same) valid))
      ]
    ],
    λ h.
        let (named, text, e, raw, e', same, v) = h in
        let valid = validate_complete c v in ground arith,
  )
