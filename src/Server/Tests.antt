-- ===== src/Server/Tests.antt =====
-- The other handlers and the gateway at concrete inputs.
use bridge_remote_signer.Server.EnabledRpcs.{
  enabled_rpcs_from_config, lookup-enabled_rpcs_from_config,
}
use bridge_remote_signer.Server.Registration.{sign_initial}
use bridge_remote_signer.Server.Checkpoint.{fixed32}
use bridge_remote_signer.Server.Samples.{crypto, signs, refuses, sample_signature}
use bridge_remote_signer.Server.Attestation.{
  AttestationRequest, sign_oracle_attestation, verify_attestation, encode_oracle_attestation,
}
use bridge_remote_signer.Server.Gateway.{
  UnaryCall, Reply, method_sign_bridge_checkpoint, panicked, serve, answered, GatewayError,
  rejected,
}
use bridge_remote_signer.Server.SignTx.Laws.{TxOutcome, sign_tx-IsAllowedTx}
use bridge_remote_signer.Server.SignTx.{sign_tx, TxDecoder, is_allowed, not_allowed}
use bridge_remote_signer.Server.Gateway.Laws.{IsAdmitted, recovered, serve_lem}
use bridge_remote_signer.Server.Registration.Laws.{InitialOutcome, sign_initial-IsOwnOperator}
use bridge_remote_signer.Base.{
  Bool, Bytes, List, Option, [], ascii, bytes_dec, err, false, if◌then◌else◌, lookup, ok, refl,
  replicate, some, true, ℕ, ◌++◌, ◌+◌, ◌==◌, ◌∷◌, ◌≡◌, ◌⊎◌, bytes_eq, nat_eq,
}

abbrev pub attestation : AttestationRequest
attestation = record {
  query_id = replicate 32 9;
  value = 1 ∷ 2 ∷ [];
  timestamp = 10;
  aggregate_power = 20;
  previous_timestamp = 5;
  next_timestamp = 0;
  valset_checkpoint = replicate 32 4;
  attestation_timestamp = 11;
  last_consensus_timestamp = 5;
  expected_snapshot = ascii "tellorCurrentAttestation" ++ replicate 8 0;
}

attestation_answered :
    (sign_oracle_attestation crypto signs attestation).1
    ≡ ok (record { signature = sample_signature; snapshot = attestation.expected_snapshot })
unfolding sign_oracle_attestation verify_attestation encode_oracle_attestation fixed32 bytes_dec
attestation_answered = refl

-- A doc is its body, and each byte of it is the type URL of one message.
abbrev singletons : Bytes → List Bytes
singletons [] = []
singletons (b ∷ bs) = (b ∷ []) ∷ singletons bs

abbrev decoder : TxDecoder
decoder = record { body_bytes = some; type_urls = λ body. some (singletons body) }

abbrev allowed : List Bytes
allowed = (1 ∷ []) ∷ (2 ∷ []) ∷ []

sign_tx_refused :
    sign_tx crypto decoder signs allowed (1 ∷ 3 ∷ []) ≡ ([], err (not_allowed (3 ∷ [])))
unfolding sign_tx is_allowed bytes_dec
sign_tx_refused = refl

sign_tx-IsAllowedTx_example :
    TxOutcome crypto decoder signs allowed
      (1 ∷ 2 ∷ [])
      (sign_tx crypto decoder signs allowed (1 ∷ 2 ∷ []))
sign_tx-IsAllowedTx_example = sign_tx-IsAllowedTx crypto decoder signs allowed (1 ∷ 2 ∷ [])

abbrev operator : Bytes
operator = ascii "tellorvaloper1"

abbrev account : Bytes
account = replicate 20 7

abbrev decodes : Bytes → Option Bytes
decodes s = some account

sign_initial-IsOwnOperator_example :
    InitialOutcome crypto decodes signs refuses account operator
      (sign_initial crypto decodes signs refuses account operator)
sign_initial-IsOwnOperator_example =
    sign_initial-IsOwnOperator crypto decodes signs refuses account operator

abbrev call : UnaryCall
call = record { full_method = method_sign_bridge_checkpoint; peer = some (ascii "node-2:51000") }

-- A handler that counts its calls and panics at the third.
abbrev handler : ℕ → ℕ × Reply ℕ
handler n = (n + 1, if n == 2 then panicked else answered n)

serve_lem_example :
    (IsAdmitted [] (some (ascii "node-1")) call
      × (serve ℕ ℕ [] (some (ascii "node-1")) call handler 2 ≡ recovered ℕ ℕ (handler 2)))
    ⊎ ((¬ IsAdmitted [] (some (ascii "node-1")) call)
        × (e : GatewayError) × (serve ℕ ℕ [] (some (ascii "node-1")) call handler 2
            ≡ (2, rejected e)))
serve_lem_example = serve_lem ℕ ℕ [] (some (ascii "node-1")) call handler 2

abbrev switches : List (Bytes × Bool)
switches = (ascii "sign_tx", false) ∷ (ascii "sign_initial", true) ∷ []

lookup-enabled_rpcs_from_config_case :
    lookup (ascii "/signer.v1.BridgeSigner/SignTx") (enabled_rpcs_from_config switches)
    ≡ lookup (ascii "sign_tx") switches
unfolding lookup bytes_dec
lookup-enabled_rpcs_from_config_case =
    lookup-enabled_rpcs_from_config (ascii "sign_tx") (ascii "/signer.v1.BridgeSigner/SignTx")
      switches refl (refl, (refl, tt))
