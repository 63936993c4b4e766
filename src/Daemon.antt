-- ===== src/Daemon.antt =====
-- cmd/bridge-signer/cmd_start.go and `New` of server/server.go: the order in which the daemon builds
-- its parts, and its shutdown. Every part is the model of its own module; the libraries, the files
-- and the address derivations are parameters. An error after the dial clients have been started ends
-- the process, and them with it.
pub mod Parts
pub mod Laws
pub mod Tests
mod PlaneTests
pub mod Lifecycle
pub mod Errors
use bridge_remote_signer.Base.{
  Bool, Bytes, List, Option, Result, [], ascii, err, false, if◌then◌else◌, ltb_ℤ, none, ok, pos,
  pos_part, some, some_or, true, ℤ, ◌∷◌, ◌>>◌, ◌>>=◌,
}
use bridge_remote_signer.Config.{
  Config, SignerConfig, ConfigError, Environment, enabled, target_list, failover_timeout,
  checkpoint_guard_state_path,
}
use bridge_remote_signer.Config.Validate.{load}
use bridge_remote_signer.Consensus.ConnKey.{KeyCodec, ConnKeyError, gen_or_load_conn_key}
use bridge_remote_signer.Consensus.Primary.{PrimaryArbiter, new_preferring_primary_arbiter}
use bridge_remote_signer.Consensus.StateFile.{
  Entry, WriteEnd, StateFileError, PvCodec, FilePv, LoadError, require_state_file,
  load_comet_file_pv,
}
use bridge_remote_signer.Logging.{LogError, new_logger}
use bridge_remote_signer.Server.EnabledRpcs.{enabled_rpcs_from_config}
use bridge_remote_signer.Server.ReplayGuard.{
  CheckpointReplayGuard, GuardError, JsonCodec, ReadOutcome, new_checkpoint_replay_guard,
}
use bridge_remote_signer.Signer.Types.{RawConfig, Registry, Signer, SignerError, text, new_signer}
use bridge_remote_signer.Tls.{TlsLibrary, TlsConfig, TlsError, new_server_credentials}

pub data DaemonError : Type 0 where
  load_config : ConfigError → DaemonError
  initialize_logger : LogError → DaemonError
  initialize_signer : SignerError → DaemonError
  get_public_key : SignerError → DaemonError
  decompress_public_key : DaemonError
  load_conn_key : ConnKeyError → DaemonError
  state_file : StateFileError → DaemonError
  load_validator_key : LoadError → DaemonError
  validator_address : DaemonError
  parse_failover : ConfigError → DaemonError
  build_tls : TlsError → DaemonError
  init_guard : GuardError → DaemonError

-- The libraries, and what the daemon finds on the disk when it reads.
pub record Machine : Type 1 where
  pub config_env : Environment
  pub registry : Registry
  pub canceled : SignerError → Bool
  pub decompress_pubkey : Bytes → Option Bytes
  pub evm_address : Bytes → Bytes
  pub cosmos_address : Bytes → Bytes
  pub key_codec : KeyCodec
  pub conn_key_fails : Bool
  pub conn_key_end : WriteEnd
  pub fresh_conn_key : Bytes
  pub conn_key_entry : Entry
  pub pv_codec : PvCodec
  pub state_stat_fails : Bool
  pub state_read_fails : Bool
  pub state_entry : Entry
  pub key_json : Option Bytes
  pub pv_address : FilePv pv_codec → Option Bytes
  pub tls : TlsLibrary
  pub json : JsonCodec
  pub read_guard : Bytes → ReadOutcome

-- `ToMap` of config/config.go
unfoldable pub to_map : SignerConfig → RawConfig
to_map c =
    (ascii "keyring_dir", text c.keyring_dir)
    ∷ (ascii "key_name", text c.key_name)
    ∷ (ascii "password_file", text c.password_file)
    ∷ (ascii "dsm_api_endpoint", text c.dsm_api_endpoint)
    ∷ (ascii "dsm_api_key", text c.dsm_api_key)
    ∷ (ascii "dsm_key_id", text c.dsm_key_id)
    ∷ (ascii "dsm_key_name", text c.dsm_key_name)
    ∷ []

-- An error of another part, as the daemon's own.
abbrev pub wrapped {ε ℓ} :
    {E : Type ε} {A : Type ℓ} → (E → DaemonError) → Result E A → Result DaemonError A
wrapped wrap (err e) = err (wrap e)
wrapped wrap (ok a) = ok a

module _ (m : Machine) where
  -- What each dial client is given, and the election that they share; `none` without one.
  pub record ConsensusPlane : Type 0 where
    pub conn_key : Bytes
    pub pv : FilePv m.pv_codec
    pub val_addr : Bytes
    pub targets : List Bytes
    pub arbiter : Option PrimaryArbiter

  -- The fields of server.Server that `New` fills, and of the gRPC server that it builds; `none` for
  -- insecure credentials. `primary_gated` tells that a `PrimaryHost` is given.
  pub record Server : Type 0 where
    pub self_evm_addr : Bytes
    pub self_cosmos_addr : Bytes
    pub guard : CheckpointReplayGuard
    pub enabled_rpcs : List (Bytes × Bool)
    pub allowed_msg_types : List Bytes
    pub chain_id : Bytes
    pub credentials : Option (TlsConfig m.tls)
    pub primary_gated : Bool

  pub record Running : Type 0 where
    pub config : Config
    pub signer : Signer
    pub plane : Option ConsensusPlane
    pub server : Server

  unfoldable pub elect : ℤ → Bool → List Bytes → Option PrimaryArbiter
  elect timeout prefer targets =
      if ltb_ℤ (pos 0) timeout
      then some (new_preferring_primary_arbiter (pos_part timeout) (if prefer then targets else []))
      else none

  unfoldable pub start_consensus : Config → Result DaemonError ConsensusPlane
  start_consensus cfg = do
    conn_key ←
        wrapped load_conn_key
          (gen_or_load_conn_key m.key_codec m.conn_key_fails m.conn_key_end m.fresh_conn_key
            m.conn_key_entry).1
    wrapped state_file (require_state_file m.state_stat_fails m.state_entry)
    file_pv ←
        wrapped load_validator_key
          (load_comet_file_pv m.pv_codec m.key_json m.state_read_fails m.state_entry)
    val_addr ← some_or validator_address (m.pv_address file_pv)
    timeout ← wrapped parse_failover (failover_timeout m.config_env cfg.consensus)
    ok (record {
      conn_key = conn_key;
      pv = file_pv;
      val_addr = val_addr;
      targets = target_list cfg.consensus;
      arbiter = elect timeout cfg.consensus.prefer_target_order (target_list cfg.consensus);
    })

  unfoldable pub start_plane : Config → Result DaemonError (Option ConsensusPlane)
  start_plane cfg = elim (enabled cfg.consensus) [
    | false ↦ ok none
    | true ↦ do plane ← start_consensus cfg; ok (some plane)
  ]

  unfoldable pub build_credentials : Config → Result DaemonError (Option (TlsConfig m.tls))
  build_credentials cfg = elim cfg.tls.insecure [
    | true ↦ ok none
    | false ↦ do
      creds ←
          wrapped build_tls
            (new_server_credentials m.tls cfg.tls.ca_cert cfg.tls.server_cert cfg.tls.server_key)
      ok (some creds)
  ]

  abbrev pub has_election : Option ConsensusPlane → Bool
  has_election none = false
  has_election (some plane) = elim plane.arbiter [ none ↦ false | some arbiter ↦ true ]

  -- The check of the key, which the daemon makes first and `New` again.
  unfoldable pub signer_key : Signer → Result DaemonError (Bytes × Bytes)
  signer_key s = do
    pub_key ← wrapped get_public_key s.get_public_key
    point ← some_or decompress_public_key (m.decompress_pubkey pub_key)
    ok (pub_key, point)

  unfoldable pub new_server :
      Signer → Config → Option (TlsConfig m.tls) → Bool → Result DaemonError Server
  new_server s cfg creds gated = do
    (pub_key, point) ← signer_key s
    let path = checkpoint_guard_state_path m.config_env cfg
    guard ← wrapped init_guard (new_checkpoint_replay_guard m.json path (m.read_guard path))
    ok (record {
      self_evm_addr = m.evm_address point;
      self_cosmos_addr = m.cosmos_address pub_key;
      guard = guard;
      enabled_rpcs = enabled_rpcs_from_config cfg.server.enabled_rpcs;
      allowed_msg_types = cfg.server.allowed_msg_types;
      chain_id = cfg.chain_id;
      credentials = creds;
      primary_gated = gated;
    })

  unfoldable pub run_with : Config → Signer → Result DaemonError Running
  run_with cfg s = do
    key ← signer_key s
    plane ← start_plane cfg
    creds ← build_credentials cfg
    server ← new_server s cfg creds (has_election plane)
    ok (record { config = cfg; signer = s; plane = plane; server = server })

  -- `none` is a startup that a signal canceled, which is no error.
  unfoldable pub run_daemon : Bytes → Result DaemonError (Option Running)
  run_daemon config_path = do
    cfg ← wrapped load_config (load m.config_env config_path)
    logger ← wrapped initialize_logger (new_logger cfg.log.level cfg.log.format)
    elim (new_signer m.registry cfg.signer.backend (to_map cfg.signer)) [
      | err e ↦ if m.canceled e then ok none else err (initialize_signer e)
      | ok s ↦ do running ← run_with cfg s; ok (some running)
    ]
