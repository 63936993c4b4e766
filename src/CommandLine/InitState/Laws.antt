-- ===== src/CommandLine/InitState/Laws.antt =====
-- What `init-state` leaves on the disk.
use bridge_remote_signer.Base.{
  Bool, Bool-cases, Bytes, Result, Result-cases, ap, arith, err, false, inl, inr, ok, refl, subst,
  sym, true, ◌==◌, ◌∙◌, ◌≡◌, ◌≢◌, bytes_eq, nat_eq,
}
use bridge_remote_signer.Config.{Environment, Config}
use bridge_remote_signer.Config.Validate.{load}
use bridge_remote_signer.Consensus.StateFile.{
  Entry, absent, directory, regular, WriteEnd, written, not_opened, cut_off, init_state_file,
  write_file, fresh_state_json,
}
use bridge_remote_signer.CommandLine.InitState.{Files, put, InitError, init_failed, run_init_state}

-- What is there stays, and a success is a new file with the fresh state.
init_state_file-fresh :
    (stat_fails : Bool) (end : WriteEnd) (entry : Entry)
    → let (entry', made) = init_state_file stat_fails end entry in
      (entry ≢ absent → entry' ≡ entry)
      × (made ≡ ok tt
          → (entry ≡ absent) × (entry' ≡ regular fresh_state_json) × (stat_fails ≡ false))
unfolding init_state_file write_file
init_state_file-fresh true end entry = ground arith
init_state_file-fresh false end directory = ground arith
init_state_file-fresh false end (regular b) = ground arith
init_state_file-fresh false written absent = ground arith
init_state_file-fresh false not_opened absent = ground arith
init_state_file-fresh false (cut_off n) absent = ground arith

module _ (env : Environment) (stat_fails : Bool) (end : WriteEnd) (files : Files)
    (config_path : Bytes) where
  abbrev pub Keeps : Files × Result InitError Bytes → Type 0
  Keeps end_state =
      ((p : Bytes) → files p ≢ absent → end_state.0 p ≡ files p)
      × ((path : Bytes)
          → end_state.1 ≡ ok path
          → (cfg : Config) × (load env config_path ≡ ok cfg)
            × (path ≡ cfg.consensus.state_file)
            × (files path ≡ absent)
            × (end_state.0 path ≡ regular fresh_state_json))
      × ((p : Bytes)
          → ((cfg : Config) → load env config_path ≡ ok cfg → p ≢ cfg.consensus.state_file)
          → end_state.0 p ≡ files p)

  -- What `init_state_file` made of the entry at the configured path.
  put-Keeps :
      (cfg : Config) (entry : Entry) (r : Result InitError Bytes)
      → load env config_path ≡ ok cfg
      → (files cfg.consensus.state_file ≢ absent → entry ≡ files cfg.consensus.state_file)
      → ((path : Bytes)
          → r ≡ ok path
          → (path ≡ cfg.consensus.state_file)
            × (files path ≡ absent)
            × (entry ≡ regular fresh_state_json))
      → Keeps (put files cfg.consensus.state_file entry, r)
  put-Keeps cfg entry r loaded keeps fresh = (
    λ p there. elim (Bool-cases (cfg.consensus.state_file == p)) [
      | inl same ↦
          let e : cfg.consensus.state_file ≡ p = ground arith in
          rw same (keeps (λ h. there (sym (ap files e) ∙ h)) ∙ ap files e)
      | inr other ↦ rw other refl
    ],
    λ path done.
        let (at, none_there, now) = fresh path done in (cfg, loaded, at, none_there, ground arith),
    λ p apart. let other = apart cfg loaded in ground arith,
  )

  -- Whatever calls of the file system fail: a path with an entry keeps it, a path other than the
  -- configured state file keeps what is there or is not, and a success means that the configuration
  -- was loaded, that no file was at its path and that the fresh state is there now.
  pub run_init_state-fresh : Keeps (run_init_state env stat_fails end files config_path)
  unfolding run_init_state
  run_init_state-fresh = elim (Result-cases (load env config_path)) [
    | inl (e, bad) ↦
        rw (bad, run_init_state) (λ p there. refl, λ path done. absurd (cc), λ p apart. refl)
    | inr (cfg, good) ↦
        let path = cfg.consensus.state_file in
        let (keeps, fresh) = init_state_file-fresh stat_fails end (files path) in
        elim (Result-cases (init_state_file stat_fails end (files path)).1) [
          | inl (e, failed) ↦
              subst Keeps (rw (good, failed, run_init_state) refl)
                (put-Keeps cfg _ (err (init_failed e)) good keeps (λ p done. absurd (cc)))
          | inr (u, made) ↦ subst Keeps (rw (good, made, run_init_state) refl) (
              put-Keeps cfg _ (ok path) good keeps (λ p done.
                let at : p ≡ path = cc in
                let (none_there, now, k) = fresh made in (at, ap files at ∙ none_there, now)))
        ]
  ]
