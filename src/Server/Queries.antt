-- ===== src/Server/Queries.antt =====
-- The RPCs of server/server.go that sign nothing: `GetPublicKey`, `GetAddress`, `GetChainID`, and the
-- blind primitives `Sign` and `SignRaw`, which are disabled.
use bridge_remote_signer.Base.{
  Bytes, Option, Result, [], err, if◌then◌else◌, length, none, not, ok, some, ℕ, ◌==◌, bytes_eq,
  nat_eq,
}

pub data QueryError : Type 0 where
  blind_signing_disabled : QueryError
  public_key_failed : QueryError
  bad_public_key_length : ℕ → QueryError
  derive_address_failed : QueryError
  chain_id_not_configured : QueryError

pub sign : Bytes → Result QueryError Bytes
sign msg = err blind_signing_disabled

pub sign_raw : Bytes → Result QueryError Bytes
sign_raw hash = err blind_signing_disabled

-- `backend` is what the backend's `GetPublicKey` returns.
pub get_public_key : Option Bytes → Result QueryError Bytes
get_public_key backend = elim backend [
  | none ↦ err public_key_failed
  | some pub_key ↦
      if not (length pub_key == 33)
      then err (bad_public_key_length (length pub_key))
      else ok pub_key
]

-- `bech32_address` is `signer.Bech32Address` for the server's key.
unfoldable pub get_address : (Bytes → Option Bytes) → Bytes → Result QueryError Bytes
get_address bech32_address prefix = elim (bech32_address prefix) [
  | none ↦ err derive_address_failed
  | some address ↦ ok address
]

pub get_chain_id : Bytes → Result QueryError Bytes
get_chain_id chain_id = if chain_id == [] then err chain_id_not_configured else ok chain_id
