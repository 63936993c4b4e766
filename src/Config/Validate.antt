-- ===== src/Config/Validate.antt =====
-- config/config.go: `validate` and `Load`, group by group in the source's order. Go walks the map
-- of enabled RPCs in any order, so which of several unknown names an error tells is open.
pub mod Laws
pub mod Load
pub mod Tests
use bridge_remote_signer.Config.{
  Environment, ServerConfig, LogConfig, ConfigError, require, TlsConfig, SignerConfig,
  timeout_not_positive, is_one_of, Config, missing_file, enabled, not_valid,
  checkpoint_guard_state_path, known_rpc_short_names, empty_path, required, unknown_rpc,
  guard_file_required, failover_timeout, unreadable, unparsable, apply_defaults,
}
use bridge_remote_signer.Base.{
  Bool, Bytes, List, Result, [], ascii, ensure, err, if◌then◌else◌, lookup, ltb_ℤ, none, not, ok,
  pos, some, true, ◌&&◌, ◌==◌, ◌∷◌, bytes_eq, nat_eq, ◌>>◌,
}

pub check_signer : Environment → SignerConfig → Result ConfigError (Unit {0})
unfolding require
check_signer env s =
    if s.backend == ascii "file"
    then (do
      require (ascii "signer.keyring_dir") s.keyring_dir
      ensure (env.stat s.keyring_dir) (missing_file s.keyring_dir)
      require (ascii "signer.key_name") s.key_name)
    else if s.backend == ascii "fortanixdsm"
    then (do
      require (ascii "signer.dsm_api_endpoint") s.dsm_api_endpoint
      require (ascii "signer.dsm_api_key") s.dsm_api_key
      ensure (not (s.dsm_key_id == [] && s.dsm_key_name == []))
          (required (ascii "signer.dsm_key_id")))
    else if s.backend == []
    then err (required (ascii "signer.backend"))
    else err (not_valid (ascii "signer.backend") s.backend)

pub check_server : ServerConfig → Result ConfigError (Unit {0})
unfolding require
check_server s = do
  require (ascii "server.listen_addr") s.listen_addr
  ensure (ltb_ℤ (pos 0) s.request_timeout) timeout_not_positive

pub check_tls : Environment → TlsConfig → Result ConfigError (Unit {0})
unfolding require
check_tls env t = if t.insecure then ok tt else (do
  require (ascii "tls.ca_cert") t.ca_cert
  require (ascii "tls.server_cert") t.server_cert
  require (ascii "tls.server_key") t.server_key
  ensure (env.stat t.ca_cert) (missing_file t.ca_cert)
  ensure (env.stat t.server_cert) (missing_file t.server_cert)
  ensure (env.stat t.server_key) (missing_file t.server_key))

pub check_rpcs : List (Bytes × Bool) → Result ConfigError (Unit {0})
check_rpcs [] = ok tt
check_rpcs ((name, on) ∷ rpcs) = do
  ensure (is_one_of name known_rpc_short_names) (unknown_rpc name)
  check_rpcs rpcs

-- `v, ok := m["sign_bridge_checkpoint"]; !ok || v`
pub signs_checkpoints : ServerConfig → Bool
signs_checkpoints s = elim (lookup (ascii "sign_bridge_checkpoint") s.enabled_rpcs) [
  | none ↦ true
  | some on ↦ on
]

pub check_guard : Environment → Config → Result ConfigError (Unit {0})
check_guard env c =
    ensure (not (signs_checkpoints c.server && checkpoint_guard_state_path env c == []))
      guard_file_required

pub check_log : LogConfig → Result ConfigError (Unit {0})
check_log l = do
  ensure (is_one_of l.level (ascii "debug" ∷ ascii "info" ∷ ascii "warn" ∷ ascii "error" ∷ []))
      (not_valid (ascii "logging.level") l.level)
  ensure (is_one_of l.format (ascii "json" ∷ ascii "text" ∷ []))
      (not_valid (ascii "logging.format") l.format)

pub check_consensus : Environment → Config → Result ConfigError (Unit {0})
unfolding require
check_consensus env c = if not (enabled c.consensus) then ok tt else (do
  require (ascii "chain_id") c.chain_id
  require (ascii "consensus.state_file") c.consensus.state_file
  require (ascii "consensus.targets") c.consensus.targets
  elim (failover_timeout env c.consensus) [ err e ↦ err e | ok d ↦ ok tt ])

unfoldable pub validate : Environment → Config → Result ConfigError (Unit {0})
validate env c = do
  check_signer env c.signer
  check_server c.server
  check_tls env c.tls
  check_rpcs c.server.enabled_rpcs
  check_guard env c
  check_log c.log
  check_consensus env c

unfoldable pub load : Environment → Bytes → Result ConfigError Config
load env path = if path == [] then err empty_path else elim (env.read_file path) [
  | none ↦ err unreadable
  | some data_ ↦ elim (env.unmarshal_yaml data_) [
    | none ↦ err unparsable
    | some cfg ↦ do validate env (apply_defaults cfg); ok (apply_defaults cfg)
  ]
]
