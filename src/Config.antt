-- ===== src/Config.antt =====
-- config/config.go: the configuration, its defaults and its checks. The YAML decoder, the file
-- system, `time.ParseDuration` and `filepath` are parameters. Durations are nanoseconds.
pub mod Validate
use mathlib.Core.List.{reverse}
use bridge_remote_signer.Text.{trim_white_space}
use bridge_remote_signer.Base.{
  Bool, Bytes, List, Option, Result, [], ascii, ensure, eqb_ℤ, err, false, if◌then◌else◌, leb_ℤ,
  none, not, ok, pos, some, ℤ, ◌==◌, ◌||◌, ◌∷◌, bytes_eq, nat_eq, ◌>>◌,
}

pub record ConsensusConfig : Type 0 where
  pub key_file : Bytes
  pub state_file : Bytes
  pub conn_key_file : Bytes
  pub targets : Bytes
  pub primary_failover_timeout : Bytes
  pub prefer_target_order : Bool

pub record SignerConfig : Type 0 where
  pub backend : Bytes
  pub keyring_dir : Bytes
  pub key_name : Bytes
  pub password_file : Bytes
  pub dsm_api_endpoint : Bytes
  pub dsm_api_key : Bytes
  pub dsm_key_id : Bytes
  pub dsm_key_name : Bytes

pub record ServerConfig : Type 0 where
  pub listen_addr : Bytes
  pub health_addr : Bytes
  pub request_timeout : ℤ
  pub max_recv_msg_size : ℤ
  pub allowed_msg_types : List Bytes
  pub checkpoint_guard_state_file : Bytes
  pub enabled_rpcs : List (Bytes × Bool)
  pub enable_reflection : Bool

pub record TlsConfig : Type 0 where
  pub insecure : Bool
  pub ca_cert : Bytes
  pub server_cert : Bytes
  pub server_key : Bytes

pub record LogConfig : Type 0 where
  pub level : Bytes
  pub format : Bytes

pub record Config : Type 0 where
  pub chain_id : Bytes
  pub consensus : ConsensusConfig
  pub signer : SignerConfig
  pub server : ServerConfig
  pub tls : TlsConfig
  pub log : LogConfig

-- `stat` tells whether `os.Stat` succeeds, `beside p` is the guard's default file in the directory
-- of `p`, and `none` is an error.
pub record Environment : Type 0 where
  pub read_file : Bytes → Option Bytes
  pub unmarshal_yaml : Bytes → Option Config
  pub stat : Bytes → Bool
  pub parse_duration : Bytes → Option ℤ
  pub beside : Bytes → Bytes

-- The errors, by the field or the file that they name.
pub data ConfigError : Type 0 where
  empty_path unreadable unparsable : ConfigError
  required : Bytes → ConfigError
  missing_file : Bytes → ConfigError
  not_valid : Bytes → Bytes → ConfigError
  timeout_not_positive failover_not_positive failover_unparsable : ConfigError
  unknown_rpc : Bytes → ConfigError
  guard_file_required : ConfigError

-- `strings.Split(s, ",")`, with the part before the first comma kept in reverse
split_commas : Bytes → Bytes → List Bytes
split_commas part [] = reverse part ∷ []
split_commas part (c ∷ cs) =
    let rest = split_commas [] cs in
    let longer = split_commas (c ∷ part) cs in if c == b',' then reverse part ∷ rest else longer

keep_targets : List Bytes → List Bytes
keep_targets [] = []
keep_targets (raw ∷ raws) =
    if trim_white_space raw == []
    then keep_targets raws
    else trim_white_space raw ∷ keep_targets raws

unfoldable pub target_list : ConsensusConfig → List Bytes
unfolding split_commas keep_targets
target_list c = keep_targets (split_commas [] c.targets)

unfoldable pub enabled : ConsensusConfig → Bool
enabled c = not (c.key_file == [])

unfoldable pub failover_timeout : Environment → ConsensusConfig → Result ConfigError ℤ
failover_timeout env c =
    if c.primary_failover_timeout == []
    then ok (pos 0)
    else elim (env.parse_duration c.primary_failover_timeout) [
      | none ↦ err failover_unparsable
      | some d ↦ if leb_ℤ d (pos 0) then err failover_not_positive else ok d
    ]

unfoldable pub checkpoint_guard_state_path : Environment → Config → Bytes
checkpoint_guard_state_path env c =
    if not (c.server.checkpoint_guard_state_file == [])
    then c.server.checkpoint_guard_state_file
    else if not (c.consensus.state_file == [])
    then env.beside c.consensus.state_file
    else []

-- `if field == "" { field = value }`
abbrev or_default : Bytes → Bytes → Bytes
or_default field value = if field == [] then value else field

default_server : ServerConfig → ServerConfig
default_server s = record s {
  listen_addr = or_default s.listen_addr (ascii "0.0.0.0:9191");
  health_addr = or_default s.health_addr (ascii "0.0.0.0:9192");
  request_timeout = if eqb_ℤ s.request_timeout (pos 0) then pos 2000000000 else s.request_timeout;
  max_recv_msg_size =
      if eqb_ℤ s.max_recv_msg_size (pos 0) then pos 1048576 else s.max_recv_msg_size;
}

default_consensus : ConsensusConfig → ConsensusConfig
default_consensus c =
    if enabled c
    then record c {
      state_file = or_default c.state_file (ascii "/data/priv_validator_state.json");
      conn_key_file = or_default c.conn_key_file (ascii "/data/connection.key");
      targets = or_default c.targets (ascii "tcp://layer:26659,tcp://layer-backup:26659");
    }
    else c

unfoldable pub apply_defaults : Config → Config
unfolding default_server default_consensus
apply_defaults c = record c {
  server = default_server c.server;
  log = record {
    level = or_default c.log.level (ascii "info");
    format = or_default c.log.format (ascii "json");
  };
  consensus = default_consensus c.consensus;
}

abbrev pub known_rpc_short_names : List Bytes
known_rpc_short_names =
    ascii "sign"
    ∷ ascii "sign_raw"
    ∷ ascii "sign_tx"
    ∷ ascii "sign_bridge_checkpoint"
    ∷ ascii "sign_oracle_attestation"
    ∷ ascii "sign_initial"
    ∷ ascii "get_public_key"
    ∷ ascii "get_address"
    ∷ ascii "get_chain_id"
    ∷ []

unfoldable pub is_one_of : Bytes → List Bytes → Bool
is_one_of name [] = false
is_one_of name (n ∷ ns) = n == name || is_one_of name ns

pub require : Bytes → Bytes → Result ConfigError (Unit {0})
require name field = ensure (not (field == [])) (required name)
