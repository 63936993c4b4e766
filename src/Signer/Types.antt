-- ===== src/Signer/Types.antt =====
-- signer/signer.go: the interface that every backend implements, and the registry of backends.
use bridge_remote_signer.Base.{
  Bytes, List, Option, Result, [], err, if◌then◌else◌, insert, lookup, map, none, ok, some, ℕ, ◌==◌,
  bytes_eq, nat_eq,
}
use bridge_remote_signer.Signer.SigUtils.{SigError}

-- A panic is an error of its own.
pub data SignerError : Type 0 where
  wrong_length : ℕ → SignerError
  signing_failed : SignerError
  conversion_failed : SigError → SignerError
  index_panic : SignerError
  missing_option : Bytes → SignerError
  password_stat_failed : SignerError
  password_permissions : ℕ → SignerError
  password_read_failed : SignerError
  password_empty : SignerError
  stdin_not_terminal : SignerError
  keyring_failed : SignerError
  key_not_found : SignerError
  nil_record : SignerError
  not_local : SignerError
  unpack_failed : SignerError
  not_secp256k1 : SignerError
  bad_key_length : ℕ → SignerError
  bad_key : SignerError
  get_sobject_failed : SignerError
  wrong_object_type : SignerError
  wrong_curve : SignerError
  no_public_key : SignerError
  bad_spki : SignerError
  bad_point : SignerError
  unknown_backend : List Bytes → SignerError

-- What one call each of `Sign`, `SignRaw` and `GetPublicKey` returns.
pub record Signer : Type 0 where
  pub sign : Bytes → Result SignerError Bytes
  pub sign_raw : Bytes → Result SignerError Bytes
  pub get_public_key : Result SignerError Bytes

-- A value of the `signer` section of the configuration: a string, or of another type.
pub data RawValue : Type 0 where
  text : Bytes → RawValue
  other : RawValue

abbrev pub RawConfig : Type 0
RawConfig = List (Bytes × RawValue)

-- `raw[k].(string)`
unfoldable pub string_option : Bytes → RawConfig → Option Bytes
string_option k raw = elim (lookup k raw) [
  | none ↦ none
  | some (text b) ↦ some b
  | some other ↦ none
]

-- `v, ok := raw[k].(string); if !ok || v == ""`
unfoldable pub required : Bytes → RawConfig → Result SignerError Bytes
required k raw = elim (string_option k raw) [
  | none ↦ err (missing_option k)
  | some b ↦ if b == [] then err (missing_option k) else ok b
]

-- `v, _ := raw[k].(string)`
unfoldable pub optional : Bytes → RawConfig → Bytes
optional k raw = elim (string_option k raw) [ none ↦ [] | some b ↦ b ]

abbrev pub BackendFactory : Type 0
BackendFactory = RawConfig → Result SignerError Signer

abbrev pub Registry : Type 0
Registry = List (Bytes × BackendFactory)

-- `none` is the panic on a name that is taken.
unfoldable pub register_backend : Bytes → BackendFactory → Registry → Option Registry
register_backend name factory registry = elim (lookup name registry) [
  | none ↦ some (insert name factory registry)
  | some taken ↦ none
]

unfoldable pub get_backend_factory : Bytes → Registry → Option BackendFactory
get_backend_factory name registry = lookup name registry

-- The order is that of the registry here, and any order in Go.
unfoldable pub available_backends : Registry → List Bytes
available_backends registry = map (λ entry. entry.0) registry

unfoldable pub new_signer : Registry → Bytes → RawConfig → Result SignerError Signer
new_signer registry backend raw = elim (get_backend_factory backend registry) [
  | none ↦ err (unknown_backend (available_backends registry))
  | some factory ↦ factory raw
]
