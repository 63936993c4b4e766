-- ===== src/Server/EnabledRpcs/Tests.antt =====
-- A configuration that switches off `SignTx`.
use bridge_remote_signer.Base.{
  Any, Bool, Bytes, Option, ascii, bytes_dec, false, lookup, refl, some, true, ◌≡◌,
}
use bridge_remote_signer.Config.{apply_defaults}
use bridge_remote_signer.Config.Validate.Tests.{raw, environment, loaded}
use bridge_remote_signer.Server.Gateway.{UnaryCall}
use bridge_remote_signer.Server.Gateway.Laws.{IsAdmitted}
use bridge_remote_signer.Server.EnabledRpcs.{
  short_rpc_name_to_full_method, known_short_rpc_names, enabled_rpcs_from_config,
}
use bridge_remote_signer.Server.EnabledRpcs.Switches.{load-enabled_rpcs_from_config}

load-enabled_rpcs_from_config_example :
    let switches = (apply_defaults raw).server.enabled_rpcs in
    Any (λ n. n ≡ ascii "sign_tx") known_short_rpc_names
    × (full : Bytes) × (lookup (ascii "sign_tx") short_rpc_name_to_full_method ≡ some full)
    × (lookup full (enabled_rpcs_from_config switches) ≡ some false)
    × ((primary_host : Option Bytes) (call : UnaryCall)
        → call.full_method ≡ full
        → IsAdmitted (enabled_rpcs_from_config switches) primary_host call
        → ◌≡◌ {A = Bool} false true)
unfolding lookup apply_defaults bytes_dec
load-enabled_rpcs_from_config_example =
    load-enabled_rpcs_from_config environment (ascii "config.yaml") (apply_defaults raw) loaded
      (refl, tt) (ascii "sign_tx") false refl
