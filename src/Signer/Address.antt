-- ===== src/Signer/Address.antt =====
-- signer/address.go. The Cosmos address of a key and the bech32 encoding are parameters.
use bridge_remote_signer.Base.{
  Bytes, Option, Result, [], ensure, err, length, not, ok, some_or, ℕ, ◌==◌, bytes_eq, nat_eq, ◌>>◌,
  ◌>>=◌,
}
use bridge_remote_signer.Signer.Types.{Signer}

pub record Bech32 : Type 0 where
  pub account : Bytes → Bytes
  pub convert_and_encode : Bytes → Bytes → Option Bytes

pub data AddressError : Type 0 where
  empty_prefix : AddressError
  public_key_failed : AddressError
  bad_length : ℕ → AddressError
  encode_failed : AddressError

unfoldable pub bech32_address : Bech32 → Signer → Bytes → Result AddressError Bytes
bech32_address codec s prefix = do
  ensure (not (prefix == [])) empty_prefix
  pub_key ← elim s.get_public_key [ err e ↦ err public_key_failed | ok key ↦ ok key ]
  ensure (length pub_key == 33) (bad_length (length pub_key))
  some_or encode_failed (codec.convert_and_encode prefix (codec.account pub_key))
