-- ===== src/Daemon/Tests.antt =====
-- A daemon without a consensus key and without TLS comes up.
use bridge_remote_signer.Base.{
  Bool, Bytes, [], arith, ascii, bytes_dec, err, false, if◌then◌else◌, inl, inr, lookup, none, ok,
  pos, refl, some, true, ◌∷◌, ◌≡◌,
}
use bridge_remote_signer.Config.{Config, apply_defaults, enabled, checkpoint_guard_state_path}
use bridge_remote_signer.Config.Validate.{load}
use bridge_remote_signer.Config.Validate.Laws.{IsValid}
use bridge_remote_signer.Config.Validate.Load.{load-IsValid}
use bridge_remote_signer.Logging.{new_logger, parse_level, parse_format}
use bridge_remote_signer.Consensus.StateFile.{absent, written, LastSignState}
use bridge_remote_signer.Server.ReplayGuard.{not_exist, fresh_guard, new_checkpoint_replay_guard}
use bridge_remote_signer.Server.EnabledRpcs.{enabled_rpcs_from_config}
use bridge_remote_signer.Signer.Types.{Signer, new_signer, signing_failed, get_backend_factory}
use bridge_remote_signer.Daemon.{
  Machine, Running, initialize_signer, run_daemon, run_with, signer_key, start_plane,
  build_credentials, new_server,
}
use bridge_remote_signer.Daemon.Laws.{IsRunning, run_daemon-IsRunning}
use bridge_remote_signer.Daemon.Errors.{is_ruled_out, run_daemon-errors}

abbrev pub raw : Config
raw = record {
  chain_id = ascii "chain";
  consensus = record {
    key_file = [];
    state_file = [];
    conn_key_file = [];
    targets = [];
    primary_failover_timeout = [];
    prefer_target_order = false;
  };
  signer = record {
    backend = ascii "file";
    keyring_dir = ascii "keys";
    key_name = ascii "validator";
    password_file = [];
    dsm_api_endpoint = [];
    dsm_api_key = [];
    dsm_key_id = [];
    dsm_key_name = [];
  };
  server = record {
    listen_addr = [];
    health_addr = [];
    request_timeout = pos 0;
    max_recv_msg_size = pos 0;
    allowed_msg_types = [];
    checkpoint_guard_state_file = ascii "guard";
    enabled_rpcs = [];
    enable_reflection = false;
  };
  tls = record { insecure = true; ca_cert = []; server_cert = []; server_key = [] };
  log = record { level = []; format = [] };
}

abbrev pub signer : Signer
signer = record {
  sign = λ msg. ok msg;
  sign_raw = λ msg. ok msg;
  get_public_key = ok (ascii "key");
}

abbrev pub fresh_state : LastSignState
fresh_state = record {
  height = pos 0;
  round = pos 0;
  step = pos 0;
  signature = [];
  sign_bytes = [];
}

-- A machine on which the backend opens, or not.
abbrev pub machine : Bool → Machine
machine opens = record {
  config_env = record {
    read_file = some;
    unmarshal_yaml = λ b. some raw;
    stat = λ path. true;
    parse_duration = λ b. none;
    beside = λ path. path;
  };
  registry = (ascii "file", λ r. if opens then ok signer else err signing_failed) ∷ [];
  canceled = λ e. false;
  decompress_pubkey = some;
  evm_address = λ point. point;
  cosmos_address = λ point. point;
  key_codec = record {
    unmarshal = λ b. none;
    marshal_indent = λ k. none;
    decode_base64 = some;
    encode_base64 = λ b. b;
  };
  conn_key_fails = false;
  conn_key_end = written;
  fresh_conn_key = [];
  conn_key_entry = absent;
  pv_codec = record {
    PrivKey = Bytes;
    unmarshal_key = λ b. none;
    unmarshal_state = λ b. none;
    new_last_sign_state = fresh_state;
  };
  state_stat_fails = false;
  state_read_fails = false;
  state_entry = absent;
  key_json = none;
  pv_address = λ pv. none;
  tls = record {
    Certificate = Bytes;
    CertPool = Bytes;
    load_x509_key_pair = λ c k. none;
    read_file = λ path. none;
    append_certs_from_pem = λ b. none;
  };
  json = record { marshal = λ g. none; unmarshal = λ b. none };
  read_guard = λ path. not_exist;
}

abbrev running : Running (machine true)
running = record {
  config = apply_defaults raw;
  signer = signer;
  plane = none;
  server = record {
    self_evm_addr = ascii "key";
    self_cosmos_addr = ascii "key";
    guard = fresh_guard (ascii "guard") 0;
    enabled_rpcs = enabled_rpcs_from_config [];
    allowed_msg_types = [];
    chain_id = ascii "chain";
    credentials = none;
    primary_gated = false;
  };
}

raw-IsValid : IsValid (machine true).config_env (apply_defaults raw)
unfolding apply_defaults checkpoint_guard_state_path lookup bytes_dec enabled
raw-IsValid = record {
  signer = inl (refl, λ e. ground arith, refl, λ e. ground arith);
  listens = λ e. ground arith;
  timeout = omega arith;
  tls = inl refl;
  rpcs = tt;
  guarded = inr (λ e. ground arith);
  level = inr (inl refl);
  format = inl refl;
  consensus = inl refl;
}

loads : (b : Bool) → load (machine b).config_env (ascii "config.yaml") ≡ ok (apply_defaults raw)
loads b =
    (load-IsValid (machine b).config_env (ascii "config.yaml") (apply_defaults raw)).1
      (λ e. ground arith, ascii "config.yaml", refl, raw, refl, refl, raw-IsValid)

came_up : run_daemon (machine true) (ascii "config.yaml") ≡ ok (some running)
unfolding run_daemon run_with apply_defaults new_logger parse_level parse_format new_signer
    get_backend_factory lookup bytes_dec signer_key start_plane enabled build_credentials new_server
    checkpoint_guard_state_path new_checkpoint_replay_guard
came_up = rw (run_daemon, loads true) refl

run_daemon-IsRunning_bare : IsRunning (machine true) (ascii "config.yaml") running
run_daemon-IsRunning_bare =
    run_daemon-IsRunning (machine true) (ascii "config.yaml") running came_up

stays_down :
    run_daemon (machine false) (ascii "config.yaml") ≡ err (initialize_signer signing_failed)
unfolding run_daemon apply_defaults new_logger parse_level parse_format new_signer
    get_backend_factory lookup bytes_dec
stays_down = rw (run_daemon, loads false) refl

run_daemon-errors_case : is_ruled_out (initialize_signer signing_failed) ≡ false
run_daemon-errors_case =
    run_daemon-errors (machine false) (ascii "config.yaml") (initialize_signer signing_failed)
      stays_down
