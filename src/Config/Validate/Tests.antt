-- ===== src/Config/Validate/Tests.antt =====
-- A minimal configuration with the file backend, loaded.

use bridge_remote_signer.Config.Validate.Load.{IsLoaded, load-IsValid}
use bridge_remote_signer.Text.{trim_white_space}
use bridge_remote_signer.Config.Validate.{
  load, validate, check_signer, check_server, check_tls, check_rpcs, check_guard, signs_checkpoints,
  check_log, check_consensus,
}
use bridge_remote_signer.Config.{
  Config, target_list, Environment, apply_defaults, is_one_of, checkpoint_guard_state_path, enabled,
}
use bridge_remote_signer.Base.{
  [], ascii, bytes_dec, false, lookup, none, ok, pos, refl, some, true, ◌++◌, ◌↔◌, ◌∷◌, ◌≡◌,
}

abbrev pub raw : Config
raw = record {
  chain_id = [];
  consensus = record {
    key_file = [];
    state_file = [];
    conn_key_file = [];
    targets = [];
    primary_failover_timeout = [];
    prefer_target_order = false;
  };
  signer = record {
    backend = ascii "file";
    keyring_dir = ascii "keys";
    key_name = ascii "validator";
    password_file = [];
    dsm_api_endpoint = [];
    dsm_api_key = [];
    dsm_key_id = [];
    dsm_key_name = [];
  };
  server = record {
    listen_addr = [];
    health_addr = [];
    request_timeout = pos 0;
    max_recv_msg_size = pos 0;
    allowed_msg_types = [];
    checkpoint_guard_state_file = ascii "guard";
    enabled_rpcs = (ascii "sign_tx", false) ∷ [];
    enable_reflection = false;
  };
  tls = record { insecure = true; ca_cert = []; server_cert = []; server_key = [] };
  log = record { level = []; format = [] };
}

abbrev pub environment : Environment
environment = record {
  read_file = some;
  unmarshal_yaml = λ b. some raw;
  stat = λ path. true;
  parse_duration = λ b. none;
  beside = λ path. path;
}

targets_of_text :
    target_list (record raw.consensus { targets = ascii " tcp://a:1,, tcp://b:2 " })
    ≡ ascii "tcp://a:1" ∷ ascii "tcp://b:2" ∷ []
unfolding target_list trim_white_space bytes_dec
targets_of_text = refl

-- A no-break space in front, and U+2028 and U+3000 at the end.
targets_of_unicode :
    target_list (record raw.consensus {
      targets = 194 ∷ 160 ∷ ascii "tcp://a:1" ++ 226 ∷ 128 ∷ 168 ∷ 227 ∷ 128 ∷ 128 ∷ [];
    })
    ≡ ascii "tcp://a:1" ∷ []
unfolding target_list trim_white_space bytes_dec
targets_of_unicode = refl

load-IsValid_example :
    (load environment (ascii "config.yaml") ≡ ok (apply_defaults raw))
    ↔ IsLoaded environment (ascii "config.yaml") (apply_defaults raw)
load-IsValid_example = load-IsValid environment (ascii "config.yaml") (apply_defaults raw)

pub loaded : load environment (ascii "config.yaml") ≡ ok (apply_defaults raw)
unfolding load apply_defaults bytes_dec validate check_signer check_server check_tls check_rpcs
    is_one_of check_guard signs_checkpoints lookup checkpoint_guard_state_path check_log
    check_consensus enabled
loaded = refl
