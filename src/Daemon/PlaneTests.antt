-- ===== src/Daemon/PlaneTests.antt =====
-- A daemon with a consensus key, an election among two targets, and mutual TLS comes up.
use bridge_remote_signer.Base.{
  Bytes, List, [], arith, ascii, bytes_dec, false, inl, inr, lookup, none, ok, pos, refl, some,
  true, ◌∷◌, ◌≡◌,
}
use bridge_remote_signer.Text.{trim_white_space}
use bridge_remote_signer.Config.{
  Config, apply_defaults, enabled, target_list, failover_timeout, checkpoint_guard_state_path,
}
use bridge_remote_signer.Config.Validate.{load}
use bridge_remote_signer.Config.Validate.Laws.{IsValid}
use bridge_remote_signer.Config.Validate.Load.{load-IsValid}
use bridge_remote_signer.Logging.{new_logger, parse_level, parse_format}
use bridge_remote_signer.Consensus.ConnKey.{gen_or_load_conn_key}
use bridge_remote_signer.Consensus.Primary.{new_preferring_primary_arbiter}
use bridge_remote_signer.Consensus.StateFile.{
  regular, require_state_file, load_comet_file_pv, load_state, fresh_state_json, write_file,
}
use bridge_remote_signer.Server.ReplayGuard.{fresh_guard, new_checkpoint_replay_guard}
use bridge_remote_signer.Server.EnabledRpcs.{enabled_rpcs_from_config}
use bridge_remote_signer.Signer.Types.{new_signer, get_backend_factory}
use bridge_remote_signer.Tls.{
  load_ca_cert, new_server_credentials, require_and_verify_client_cert, version_tls13,
}
use bridge_remote_signer.Daemon.{
  Machine, Running, elect, start_consensus, run_daemon, run_with, signer_key, start_plane,
  build_credentials, new_server,
}
use bridge_remote_signer.Daemon.Laws.{IsRunning, run_daemon-IsRunning}
use bridge_remote_signer.Daemon.Tests.{raw, machine, signer, fresh_state}

abbrev full : Config
full = record raw {
  consensus = record {
    key_file = ascii "key.json";
    state_file = ascii "state.json";
    conn_key_file = ascii "conn.json";
    targets = ascii "tcp://a:1, tcp://b:2";
    primary_failover_timeout = ascii "10s";
    prefer_target_order = true;
  };
  tls = record {
    insecure = false;
    ca_cert = ascii "ca.pem";
    server_cert = ascii "cert.pem";
    server_key = ascii "key.pem";
  };
}

abbrev plain : Machine
plain = machine true

abbrev full_machine : Machine
full_machine = record plain {
  config_env = record plain.config_env {
    unmarshal_yaml = λ b. some full;
    parse_duration = λ b. some (pos 10);
  };
  key_codec = record plain.key_codec { marshal_indent = λ k. some (ascii "{}") };
  fresh_conn_key = ascii "fresh";
  pv_codec = record {
    PrivKey = Bytes;
    unmarshal_key = λ b. some (some b);
    unmarshal_state = λ b. some fresh_state;
    new_last_sign_state = fresh_state;
  };
  state_entry = regular fresh_state_json;
  key_json = some (ascii "key");
  pv_address = λ pv. some pv.priv_key;
  tls = record {
    Certificate = Bytes;
    CertPool = Bytes;
    load_x509_key_pair = λ c k. some c;
    read_file = some;
    append_certs_from_pem = some;
  };
}

full-IsValid : IsValid full_machine.config_env (apply_defaults full)
unfolding apply_defaults checkpoint_guard_state_path lookup bytes_dec enabled
full-IsValid = record {
  signer = inl (refl, λ e. ground arith, refl, λ e. ground arith);
  listens = λ e. ground arith;
  timeout = omega arith;
  tls = inr ((λ e. ground arith, refl), (λ e. ground arith, refl), (λ e. ground arith, refl));
  rpcs = tt;
  guarded = inr (λ e. ground arith);
  level = inr (inl refl);
  format = inl refl;
  consensus =
      inr
        (λ e. ground arith, λ e. ground arith, λ e. ground arith, inr (pos 10, refl, omega arith));
}

loads : load full_machine.config_env (ascii "config.yaml") ≡ ok (apply_defaults full)
loads =
    (load-IsValid full_machine.config_env (ascii "config.yaml") (apply_defaults full)).1
      (λ e. ground arith, ascii "config.yaml", refl, full, refl, refl, full-IsValid)

abbrev targets : List Bytes
targets = ascii "tcp://a:1" ∷ ascii "tcp://b:2" ∷ []

abbrev running : Running full_machine
running = record {
  config = apply_defaults full;
  signer = signer;
  plane = some (record {
    conn_key = ascii "fresh";
    pv = record { priv_key = ascii "key"; last_sign_state = fresh_state };
    val_addr = ascii "key";
    targets = targets;
    arbiter = some (new_preferring_primary_arbiter 10 targets);
  });
  server = record {
    self_evm_addr = ascii "key";
    self_cosmos_addr = ascii "key";
    guard = fresh_guard (ascii "guard") 0;
    enabled_rpcs = enabled_rpcs_from_config [];
    allowed_msg_types = [];
    chain_id = ascii "chain";
    credentials = some (record {
      certificates = ascii "cert.pem" ∷ [];
      client_auth = require_and_verify_client_cert;
      client_cas = some (ascii "ca.pem");
      root_cas = none;
      server_name = [];
      min_version = version_tls13;
    });
    primary_gated = true;
  };
}

came_up : run_daemon full_machine (ascii "config.yaml") ≡ ok (some running)
unfolding run_daemon run_with apply_defaults new_logger parse_level parse_format new_signer
    get_backend_factory lookup bytes_dec signer_key start_plane enabled build_credentials new_server
    checkpoint_guard_state_path new_checkpoint_replay_guard start_consensus gen_or_load_conn_key
    write_file require_state_file load_comet_file_pv load_state failover_timeout elect target_list
    trim_white_space new_server_credentials load_ca_cert
came_up = rw (run_daemon, loads) refl

run_daemon-IsRunning_example : IsRunning full_machine (ascii "config.yaml") running
run_daemon-IsRunning_example =
    run_daemon-IsRunning full_machine (ascii "config.yaml") running came_up
