-- ===== src/Server/EnabledRpcs.antt =====
-- server/auth.go: `EnabledRPCsFromConfig`. A Go map has each key once and is walked in any order:
-- here it is an association list with distinct keys, in the order of the walk.
pub mod Switches
mod Tests
use mathlib.Core.Option.{or_else}
use mathlib.Core.List.{map}
use bridge_remote_signer.Base.{
  All, Bool, Bytes, List, Option, Option-cases, [], ap, arith, ascii, if◌then◌else◌, inl, inr,
  insert, lookup, lookup-insert, none, refl, some, ◌==◌, ◌∙◌, ◌∷◌, ◌≡◌, ◌≢◌, bytes_eq, nat_eq,
}

abbrev pub short_rpc_name_to_full_method : List (Bytes × Bytes)
short_rpc_name_to_full_method =
    (ascii "sign_raw", ascii "/signer.v1.BridgeSigner/SignRaw")
    ∷ (ascii "sign_tx", ascii "/signer.v1.BridgeSigner/SignTx")
    ∷ (ascii "sign_bridge_checkpoint", ascii "/signer.v1.BridgeSigner/SignBridgeCheckpoint")
    ∷ (ascii "sign_oracle_attestation", ascii "/signer.v1.BridgeSigner/SignOracleAttestation")
    ∷ (ascii "sign_initial", ascii "/signer.v1.BridgeSigner/SignInitial")
    ∷ (ascii "sign", ascii "/signer.v1.BridgeSigner/Sign")
    ∷ (ascii "get_public_key", ascii "/signer.v1.BridgeSigner/GetPublicKey")
    ∷ (ascii "get_address", ascii "/signer.v1.BridgeSigner/GetAddress")
    ∷ (ascii "get_chain_id", ascii "/signer.v1.BridgeSigner/GetChainID")
    ∷ []

-- The loop over the configuration, with the map built so far.
translate : List (Bytes × Bool) → List (Bytes × Bool) → List (Bytes × Bool)
translate [] out = out
translate ((name, on) ∷ cfg) out = translate cfg (elim (lookup name short_rpc_name_to_full_method) [
  | none ↦ out
  | some full ↦ insert full on out
])

pub enabled_rpcs_from_config : List (Bytes × Bool) → List (Bytes × Bool)
unfolding translate
enabled_rpcs_from_config cfg = translate cfg []

-- The keys of the map.
unfoldable pub known_short_rpc_names : List Bytes
known_short_rpc_names = map (λ (e : Bytes × Bytes). e.0) short_rpc_name_to_full_method

-- No full name stands twice.
abbrev HasDistinctValues : List (Bytes × Bytes) → Type 0
HasDistinctValues [] = Unit
HasDistinctValues ((k, v) ∷ m) = All (λ e. e.1 ≢ v) m × HasDistinctValues m

abbrev pub HasDistinctKeys : List (Bytes × Bool) → Type 0
HasDistinctKeys [] = Unit
HasDistinctKeys ((k, v) ∷ m) = (lookup k m ≡ none) × HasDistinctKeys m

lookup-fresh :
    (k v f : Bytes) (m : List (Bytes × Bytes)) → All (λ e. e.1 ≢ v) m → lookup k m ≡ some f → f ≢ v
unfolding lookup
lookup-fresh k v f [] fresh h = absurd (ground arith)
lookup-fresh k v f ((j, w) ∷ m) fresh h = ground (arith, lookup-fresh k v f m fresh.1, fresh.0)

lookup-injective :
    (a b f : Bytes) (m : List (Bytes × Bytes))
    → HasDistinctValues m
    → lookup a m ≡ some f
    → lookup b m ≡ some f
    → a ≡ b
unfolding lookup
lookup-injective a b f [] d h k = absurd (ground arith)
lookup-injective a b f ((j, w) ∷ m) d h k =
    ground (arith, lookup-fresh a w f m d.0, lookup-fresh b w f m d.0, lookup-injective a b f m d.1)

names-HasDistinctValues : HasDistinctValues short_rpc_name_to_full_method
names-HasDistinctValues = ground arith

lookup-cons :
    (short name : Bytes) (on : Bool) (cfg : List (Bytes × Bool))
    → lookup short ((name, on) ∷ cfg) ≡ (if name == short then some on else lookup short cfg)
unfolding lookup
lookup-cons short name on cfg = refl

lookup-nil : (short : Bytes) → lookup {V = Bool} short [] ≡ none
unfolding lookup
lookup-nil short = refl

lookup-translate :
    (short full : Bytes) (cfg out : List (Bytes × Bool))
    → lookup short short_rpc_name_to_full_method ≡ some full
    → HasDistinctKeys cfg
    → lookup full (translate cfg out) ≡ or_else (lookup short cfg) (lookup full out)
unfolding translate or_else
lookup-translate short full [] out known d = rw (lookup-nil short) refl
lookup-translate short full ((name, on) ∷ cfg) out known d =
    elim (Option-cases (lookup name short_rpc_name_to_full_method)) [
      | inl unknown ↦
          let other : name ≢ short = λ e. cc in
          rw (unknown, lookup-cons, lookup-translate short full cfg out known d.1) (ground arith)
      | inr (f, named) ↦
          let one_name : f ≡ full → name ≡ short = λ e.
            lookup-injective name short full short_rpc_name_to_full_method names-HasDistinctValues
              (named ∙ ap some e) known in
          let one_method : name ≡ short → f ≡ full = λ e. cc in
          let fresh = d.0 in
          rw
            (
              named,
              lookup-cons,
              lookup-translate short full cfg (insert f on out) known d.1,
              lookup-insert,
            )
            (ground arith)
    ]

lookup-empty : (full : Bytes) (o : Option Bool) → or_else o (lookup full []) ≡ o
unfolding or_else lookup
lookup-empty full none = refl
lookup-empty full (some b) = refl

-- The gate finds for a method exactly what the configuration says under the method's short name,
-- and nothing if it says nothing, in whatever order the map is walked.
pub lookup-enabled_rpcs_from_config :
    (short full : Bytes) (cfg : List (Bytes × Bool))
    → lookup short short_rpc_name_to_full_method ≡ some full
    → HasDistinctKeys cfg
    → lookup full (enabled_rpcs_from_config cfg) ≡ lookup short cfg
unfolding enabled_rpcs_from_config
lookup-enabled_rpcs_from_config short full cfg known d =
    lookup-translate short full cfg [] known d ∙ lookup-empty full (lookup short cfg)
