-- ===== src/Health/Tests.antt =====
-- The address of a signer whose key is 33 bytes of 2.
use bridge_remote_signer.Base.{
  Bytes, [], ascii, bytes_dec, ok, refl, replicate, some, take, ◌++◌, ◌∷◌, ◌≡◌,
}
use bridge_remote_signer.Signer.Types.{Signer}
use bridge_remote_signer.Signer.Address.{Bech32, bech32_address}
use bridge_remote_signer.Health.{address, address_json, serve}
use bridge_remote_signer.Health.Laws.{AddressAgrees, address-get_address}

abbrev key : Bytes
key = replicate 33 2

abbrev signer : Signer
signer = record { sign = λ msg. ok msg; sign_raw = λ msg. ok msg; get_public_key = ok key }

abbrev codec : Bech32
codec = record { account = take 2; convert_and_encode = λ prefix a. some (prefix ++ a) }

default_address :
    serve codec signer (ascii "/address") []
    ≡ record { status = 200; body = address_json (ascii "tellor" ++ 2 ∷ 2 ∷ []) }
unfolding serve address bech32_address bytes_dec
default_address = refl

address-get_address_example : AddressAgrees codec signer [] (ascii "tellor" ++ 2 ∷ 2 ∷ [])
address-get_address_example = address-get_address codec signer [] (ascii "tellor" ++ 2 ∷ 2 ∷ [])
