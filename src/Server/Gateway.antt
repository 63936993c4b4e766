-- ===== src/Server/Gateway.antt =====
-- The interceptors in front of every RPC: server/auth.go, and in server/server.go the primary gate,
-- the panic recovery and their chain as `New` builds it. `S` is the server's state and `R` the
-- responses. The deadline that a handler's context gets is left out.
pub mod Laws
use bridge_remote_signer.Consensus.Host.{host_of}
use bridge_remote_signer.Base.{
  Bool, Bytes, List, Option, [], ascii, if◌then◌else◌, lookup, none, not, some, ◌==◌, ◌||◌, ◌∷◌,
  bytes_eq, nat_eq,
}

-- The method's full name, and the peer's address if the context has one.
pub record UnaryCall : Type 0 where
  pub full_method : Bytes
  pub peer : Option Bytes

pub data GatewayError : Type 0 where
  method_disabled : Bytes → GatewayError
  not_the_primary internal_server_error : GatewayError

-- How a handler ends: by a panic, by an error of the gateway, or by its own answer.
pub data Reply (R : Type 0) : Type 0 where
  panicked : Reply R
  rejected : GatewayError → Reply R
  answered : R → Reply R

abbrev pub method_sign_bridge_checkpoint : Bytes
method_sign_bridge_checkpoint = ascii "/signer.v1.BridgeSigner/SignBridgeCheckpoint"

abbrev pub method_sign_oracle_attestation : Bytes
method_sign_oracle_attestation = ascii "/signer.v1.BridgeSigner/SignOracleAttestation"

unfoldable pub is_primary_gated : Bytes → Bool
is_primary_gated method =
    method == method_sign_bridge_checkpoint || method == method_sign_oracle_attestation

module _ (S R : Type 0) where
  abbrev pub UnaryHandler : Type 0
  UnaryHandler = S → S × Reply R

  abbrev pub Interceptor : Type 0
  Interceptor = UnaryCall → UnaryHandler → UnaryHandler

  -- The interceptors that are not nil.
  filtered : List (Option Interceptor) → List Interceptor
  filtered [] = []
  filtered (none ∷ ics) = filtered ics
  filtered (some ic ∷ ics) = ic ∷ filtered ics

  build : List Interceptor → Interceptor
  build [] call handler = handler
  build (ic ∷ ics) call handler = ic call (build ics call handler)

  unfoldable pub chain_unary_interceptors : List (Option Interceptor) → Interceptor
  unfolding filtered build
  chain_unary_interceptors ics = build (filtered ics)

  -- A panic becomes an error; what the handler did until then stays done.
  unfoldable pub new_unary_interceptor : Interceptor
  new_unary_interceptor call handler s =
      let (s', reply) = handler s in
      elim reply [
        | panicked ↦ (s', rejected internal_server_error)
        | rejected e ↦ (s', rejected e)
        | answered r ↦ (s', answered r)
      ]

  unfoldable pub new_enabled_rpc_interceptor : List (Bytes × Bool) → Interceptor
  new_enabled_rpc_interceptor enabled call handler s = elim (lookup call.full_method enabled) [
    | none ↦ handler s
    | some enabled_here ↦
        if not enabled_here then (s, rejected (method_disabled call.full_method)) else handler s
  ]

  -- `none` for a nil `primaryHost`, else what it returns during the call.
  unfoldable pub new_primary_gate_interceptor : Option Bytes → Interceptor
  new_primary_gate_interceptor none call handler s = handler s
  new_primary_gate_interceptor (some want) call handler s =
      if not (is_primary_gated call.full_method)
      then handler s
      else if want == []
      then handler s
      else elim call.peer [
        | none ↦ handler s
        | some addr ↦ if host_of addr == want then handler s else (s, rejected not_the_primary)
      ]

  -- The chain of `New`, in front of a handler.
  unfoldable pub serve : List (Bytes × Bool) → Option Bytes → Interceptor
  unfolding new_unary_interceptor new_enabled_rpc_interceptor new_primary_gate_interceptor
      chain_unary_interceptors
  serve enabled primary_host = chain_unary_interceptors (
      some new_unary_interceptor
      ∷ some (new_enabled_rpc_interceptor enabled)
      ∷ some (new_primary_gate_interceptor primary_host)
      ∷ [])
