-- ===== src/Server/Gateway/Laws.antt =====
-- Which calls reach their handler, and that no panic leaves the server.
use bridge_remote_signer.Consensus.Host.{host_of}
use bridge_remote_signer.Server.Gateway.{
  Reply, new_primary_gate_interceptor, UnaryCall, UnaryHandler, is_primary_gated, rejected,
  panicked, internal_server_error, serve, new_unary_interceptor, not_the_primary,
  new_enabled_rpc_interceptor, GatewayError, method_disabled, answered,
}
use bridge_remote_signer.Base.{
  Bool, Bytes, List, Option, Option-cases, [], ap, arith, false, inl, inr, lookup, none, refl, some,
  ◌∙◌, ◌≡◌, ◌≢◌, ◌⊎◌,
}

-- The call goes past the election: its method is not gated, no primary is known, the peer is
-- unknown, or the peer is on the primary's host.
abbrev pub PassesGate : Option Bytes → UnaryCall → Type 0
PassesGate none call = Unit
PassesGate (some want) call =
    (is_primary_gated call.full_method ≡ false)
    ⊎ (want ≡ [])
    ⊎ (call.peer ≡ none)
    ⊎ ((addr : Bytes) × (call.peer ≡ some addr) × (host_of addr ≡ want))

abbrev pub IsAdmitted : List (Bytes × Bool) → Option Bytes → UnaryCall → Type 0
IsAdmitted enabled primary_host call =
    (lookup call.full_method enabled ≢ some false) × PassesGate primary_host call

module _ (S R : Type 0) where
  -- The handler's result, where a panic has become an error.
  abbrev pub recovered : S × Reply R → S × Reply R
  recovered (s, panicked) = (s, rejected internal_server_error)
  recovered (s, rejected e) = (s, rejected e)
  recovered (s, answered r) = (s, answered r)

  gate_lem :
      (primary_host : Option Bytes) (call : UnaryCall) (handler : UnaryHandler S R) (s : S)
      → (PassesGate primary_host call
          × (new_primary_gate_interceptor S R primary_host call handler s ≡ handler s))
        ⊎ ((¬ PassesGate primary_host call)
            × (new_primary_gate_interceptor S R primary_host call handler s
                ≡ (s, rejected not_the_primary)))
  unfolding new_primary_gate_interceptor
  gate_lem none call handler s = inl (tt, refl)
  gate_lem (some want) call handler s = elim (Option-cases call.peer) [
    | inl e ↦ inl (inr (inr (inl e)), ground arith)
    | inr (addr, e) ↦ ground arith
  ]

  new_unary_interceptor-recovered :
      (call : UnaryCall) (handler : UnaryHandler S R) (s : S)
      → new_unary_interceptor S R call handler s ≡ recovered (handler s)
  unfolding new_unary_interceptor
  new_unary_interceptor-recovered call handler s = ground arith

  enabled_lem :
      (enabled : List (Bytes × Bool)) (call : UnaryCall) (handler : UnaryHandler S R) (s : S)
      → ((lookup call.full_method enabled ≢ some false)
          × (new_enabled_rpc_interceptor S R enabled call handler s ≡ handler s))
        ⊎ ((lookup call.full_method enabled ≡ some false)
            × (new_enabled_rpc_interceptor S R enabled call handler s
                ≡ (s, rejected (method_disabled call.full_method))))
  unfolding new_enabled_rpc_interceptor
  enabled_lem enabled call handler s = elim (Option-cases (lookup call.full_method enabled)) [
    | inl e ↦ ground arith
    | inr (b, e) ↦ ground arith
  ]

  serve_unfold :
      (enabled : List (Bytes × Bool)) (primary_host : Option Bytes) (call : UnaryCall)
      (handler : UnaryHandler S R) (s : S)
      → serve S R enabled primary_host call handler s
        ≡ recovered (
            new_enabled_rpc_interceptor S R enabled call
              (new_primary_gate_interceptor S R primary_host call handler)
              s)
  unfolding serve
  serve_unfold enabled primary_host call handler s =
      new_unary_interceptor-recovered call
        (new_enabled_rpc_interceptor S R enabled call
          (new_primary_gate_interceptor S R primary_host call handler))
        s

  -- A call is admitted exactly if its method is not disabled and it goes past the election. Then
  -- the reply is its handler's, or an internal error in place of a panic. Any other call is
  -- rejected, and its handler is not run.
  pub serve_lem :
      (enabled : List (Bytes × Bool)) (primary_host : Option Bytes) (call : UnaryCall)
      (handler : UnaryHandler S R) (s : S)
      → (IsAdmitted enabled primary_host call
          × (serve S R enabled primary_host call handler s ≡ recovered (handler s)))
        ⊎ ((¬ IsAdmitted enabled primary_host call)
            × (e : GatewayError) × (serve S R enabled primary_host call handler s
                ≡ (s, rejected e)))
  serve_lem enabled primary_host call handler s =
      let through = serve_unfold enabled primary_host call handler s in
      elim (enabled_lem enabled call (new_primary_gate_interceptor S R primary_host call handler)
        s) [
          | inr (off, e) ↦
              inr (λ v. v.0 off, method_disabled call.full_method, through ∙ ap recovered e)
          | inl (on, e) ↦ elim (gate_lem primary_host call handler s) [
            | inl (passes, e') ↦ inl ((on, passes), through ∙ ap recovered (e ∙ e'))
            | inr (stays, e') ↦
                inr (λ v. stays v.1, not_the_primary, through ∙ ap recovered (e ∙ e'))
          ]
        ]
