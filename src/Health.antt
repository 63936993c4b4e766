-- ===== src/Health.antt =====
-- health/health.go: the endpoints that need no client certificate. net/http, JSON and the rendering of
-- an error are parameters; `/metrics` serves the registry of the metrics as it is.
use bridge_remote_signer.Base.{Bytes, [], ascii, err, if◌then◌else◌, ok, ℕ, ◌==◌, bytes_eq, nat_eq}
use bridge_remote_signer.Signer.Types.{Signer}
use bridge_remote_signer.Signer.Address.{Bech32, AddressError, bech32_address}
pub mod Laws
mod Tests

pub data HealthBody : Type 0 where
  plain_ok : HealthBody
  signer_not_ready : HealthBody
  derive_address_failed : AddressError → HealthBody
  address_json : Bytes → HealthBody
  metrics : HealthBody
  not_found : HealthBody

pub record Response : Type 0 where
  pub status : ℕ
  pub body : HealthBody

abbrev pub default_prefix : Bytes
default_prefix = ascii "tellor"

-- `prefix` is the first value of the query's parameter, empty if there is none.
unfoldable pub address : Bech32 → Signer → Bytes → Response
address codec s prefix =
    let wanted = if prefix == [] then default_prefix else prefix in
    elim (bech32_address codec s wanted) [
      | err e ↦ record { status = 500; body = derive_address_failed e }
      | ok addr ↦ record { status = 200; body = address_json addr }
    ]

unfoldable pub liveness : Response
liveness = record { status = 200; body = plain_ok }

unfoldable pub readiness : Signer → Response
readiness s = elim s.get_public_key [
  | err e ↦ record { status = 503; body = signer_not_ready }
  | ok key ↦ record { status = 200; body = plain_ok }
]

-- The mux that `New` builds.
unfoldable pub serve : Bech32 → Signer → Bytes → Bytes → Response
serve codec s path prefix =
    if path == ascii "/healthz"
    then liveness
    else if path == ascii "/readyz"
    then readiness s
    else if path == ascii "/metrics"
    then record { status = 200; body = metrics }
    else if path == ascii "/address"
    then address codec s prefix
    else record { status = 404; body = not_found }
