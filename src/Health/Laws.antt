-- ===== src/Health/Laws.antt =====
-- The HTTP endpoint beside the gRPC call for the address.
use bridge_remote_signer.Base.{
  Bytes, Option, Option-cases, Result-cases, [], arith, err, if◌then◌else◌, inl, inr, length, none,
  ok, some, ◌==◌, ◌↔◌, ◌≡◌, ◌⊎◌, bytes_eq, nat_eq,
}
use bridge_remote_signer.Signer.Types.{Signer}
use bridge_remote_signer.Signer.Address.{Bech32, bech32_address}
use bridge_remote_signer.Server.Queries.{get_address}
use bridge_remote_signer.Health.{address, readiness, address_json, default_prefix}

-- The server's use of `signer.Bech32Address`, which drops the error's text.
abbrev pub server_bech32 : Bech32 → Signer → Bytes → Option Bytes
server_bech32 codec s prefix = elim (bech32_address codec s prefix) [ err e ↦ none | ok a ↦ some a ]

bech32_address_sound :
    (codec : Bech32) (s : Signer) (prefix addr : Bytes)
    → bech32_address codec s prefix ≡ ok addr
    → (key : Bytes) × (s.get_public_key ≡ ok key)
      × (length key ≡ 33)
      × (codec.convert_and_encode prefix (codec.account key) ≡ some addr)
unfolding bech32_address
bech32_address_sound codec s prefix addr h = elim (Result-cases s.get_public_key) [
  | inl (x, e) ↦ ground arith
  | inr (key, e) ↦ elim (Option-cases (codec.convert_and_encode prefix (codec.account key))) [
    | inl f ↦ ground arith
    | inr (a, f) ↦ (key, e, ground arith, ground arith)
  ]
]

abbrev pub AddressAgrees : Bech32 → Signer → Bytes → Bytes → Type 0
AddressAgrees codec s prefix addr =
    let wanted = if prefix == [] then default_prefix else prefix in
    ((address codec s prefix ≡ record { status = 200; body = address_json addr })
      ↔ (get_address (server_bech32 codec s) wanted ≡ ok addr))
    × (((address codec s prefix).status ≡ 500)
        ⊎ ((key : Bytes) × (s.get_public_key ≡ ok key)
            × (length key ≡ 33)
            × ((readiness s).status ≡ 200)
            × (a : Bytes) × (codec.convert_and_encode wanted (codec.account key) ≡ some a)
            × (address codec s prefix ≡ record { status = 200; body = address_json a })))

-- The endpoint answers 200 with an address exactly when gRPC's GetAddress answers with the same one,
-- asked for the same prefix or for "tellor" where the request has none. Either it answers 500, or the
-- signer is ready, its key has 33 bytes and the answer is the encoding of that key's account.
pub address-get_address :
    (codec : Bech32) (s : Signer) (prefix addr : Bytes) → AddressAgrees codec s prefix addr
unfolding address get_address readiness
address-get_address codec s prefix addr =
    let wanted : Bytes = if prefix == [] then default_prefix else prefix in
    elim (Result-cases (bech32_address codec s wanted)) [
      | inl (x, e) ↦ ((λ h. ground arith, λ h. ground arith), inl (ground arith))
      | inr (a, e) ↦
          let (key, served, size, encoded) = bech32_address_sound codec s wanted a e in
          (
            (λ h. ground arith, λ h. ground arith),
            inr (key, served, size, ground arith, a, encoded, ground arith),
          )
    ]
