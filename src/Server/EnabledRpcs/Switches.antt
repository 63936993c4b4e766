-- ===== src/Server/EnabledRpcs/Switches.antt =====
-- What a loaded configuration says of an RPC is what the gate of the server does: config/config.go
-- and server/auth.go hold a table of the names each.
use bridge_remote_signer.Base.{
  All, Any, Bool, Bool-cases, Bytes, List, Option, [], arith, bytes_dec, false, inl, inr, lookup,
  map, ok, refl, some, subst, true, ◌==◌, ◌∙◌, ◌∷◌, ◌≡◌, bytes_eq, nat_eq,
}
use bridge_remote_signer.Config.{Environment, Config, known_rpc_short_names}
use bridge_remote_signer.Config.Validate.{load}
use bridge_remote_signer.Config.Validate.Load.{load-IsValid}
use bridge_remote_signer.Server.Gateway.{UnaryCall}
use bridge_remote_signer.Server.Gateway.Laws.{IsAdmitted}
use bridge_remote_signer.Server.EnabledRpcs.{
  short_rpc_name_to_full_method, known_short_rpc_names, enabled_rpcs_from_config, HasDistinctKeys,
  lookup-enabled_rpcs_from_config,
}

abbrev pub IsKnown : Bytes → Type 0
IsKnown name = (full : Bytes) × (lookup name short_rpc_name_to_full_method ≡ some full)

All-Any :
    (P : Bytes → Type 0) (name : Bytes) (names : List Bytes)
    → All P names
    → Any (λ n. n ≡ name) names
    → P name
All-Any P name [] all h = absurd h
All-Any P name (n ∷ names) all (inl e) = subst P e all.0
All-Any P name (n ∷ names) all (inr h) = All-Any P name names all.1 h

lookup-Any :
    (name full : Bytes) (table : List (Bytes × Bytes))
    → lookup name table ≡ some full
    → Any (λ n. n ≡ name) (map (λ (e : Bytes × Bytes). e.0) table)
unfolding lookup
lookup-Any name full [] h = absurd (ground arith)
lookup-Any name full ((k, v) ∷ table) h = ground (arith, lookup-Any name full table)

config_names-IsKnown : All IsKnown known_rpc_short_names
unfolding lookup bytes_dec
config_names-IsKnown = (
  (_, refl),
  (
    (_, refl),
    ((_, refl), ((_, refl), ((_, refl), ((_, refl), ((_, refl), ((_, refl), ((_, refl), tt))))))),
  ),
)

server_names-Any : All (λ name. Any (λ n. n ≡ name) known_rpc_short_names) known_short_rpc_names
unfolding known_short_rpc_names
server_names-Any = ground arith

-- The two tables hold the same names, and the keys of the server's are what it reports.
names-IsKnown :
    (name : Bytes)
    → (Any (λ n. n ≡ name) known_rpc_short_names → IsKnown name)
      × (IsKnown name → Any (λ n. n ≡ name) known_short_rpc_names)
      × (Any (λ n. n ≡ name) known_short_rpc_names → Any (λ n. n ≡ name) known_rpc_short_names)
unfolding known_short_rpc_names
names-IsKnown name = (
  All-Any IsKnown name known_rpc_short_names config_names-IsKnown,
  λ (full, e). lookup-Any name full short_rpc_name_to_full_method e,
  All-Any (λ k. Any (λ n. n ≡ k) known_rpc_short_names) name known_short_rpc_names server_names-Any,
)

lookup-All :
    (P : Bytes → Type 0) (name : Bytes) (on : Bool) (cfg : List (Bytes × Bool))
    → All (λ (e : Bytes × Bool). P e.0) cfg
    → lookup name cfg ≡ some on
    → P name
unfolding lookup
lookup-All P name on [] all h = absurd (ground arith)
lookup-All P name on ((k, v) ∷ cfg) all h = elim (Bool-cases (k == name)) [
  | inl found ↦ let same : k ≡ name = ground arith in subst P same all.0
  | inr other ↦ lookup-All P name on cfg all.1 (ground arith)
]

admitted-on :
    (full : Bytes) (on : Bool) (enabled : List (Bytes × Bool))
    → lookup full enabled ≡ some on
    → (primary_host : Option Bytes) (call : UnaryCall) → call.full_method ≡ full
    → IsAdmitted enabled primary_host call
    → on ≡ true
admitted-on full true enabled found primary_host call here v = refl
admitted-on full false enabled found primary_host call here v = absurd (v.0 (cc))

-- A loaded configuration names only RPCs that the server knows, which are those that the server
-- reports as known, and every switch that it sets is what the gate finds for the method of that
-- name: none is dropped, and a method that is switched off admits no call.
pub load-enabled_rpcs_from_config :
    (env : Environment) (path : Bytes) (cfg : Config)
    → load env path ≡ ok cfg
    → HasDistinctKeys cfg.server.enabled_rpcs
    → (name : Bytes) (on : Bool) → lookup name cfg.server.enabled_rpcs ≡ some on
    → Any (λ n. n ≡ name) known_short_rpc_names
      × (full : Bytes) × (lookup name short_rpc_name_to_full_method ≡ some full)
      × (lookup full (enabled_rpcs_from_config cfg.server.enabled_rpcs) ≡ some on)
      × ((primary_host : Option Bytes) (call : UnaryCall)
          → call.full_method ≡ full
          → IsAdmitted (enabled_rpcs_from_config cfg.server.enabled_rpcs) primary_host call
          → on ≡ true)
load-enabled_rpcs_from_config env path cfg loaded distinct name on set =
    let (named, text, read, raw, decoded, filled, v) = (load-IsValid env path cfg).0 loaded in
    let (is_known, reported, same) = names-IsKnown name in
    let listed =
      lookup-All (λ k. Any (λ n. n ≡ k) known_rpc_short_names) name on cfg.server.enabled_rpcs
        v.rpcs set in
    let (full, known) = is_known listed in
    let found =
      lookup-enabled_rpcs_from_config name full cfg.server.enabled_rpcs known distinct ∙ set in
    (reported (full, known), full, known, found, admitted-on full on _ found)
