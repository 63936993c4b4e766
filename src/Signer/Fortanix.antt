-- ===== src/Signer/Fortanix.antt =====
-- signer/fortanix_dsm.go: the backend whose key lies in a hardware module. The SDK, sha256 and the
-- decoder of a SubjectPublicKeyInfo are parameters.
pub mod Laws
use bridge_remote_signer.Base.{
  Bytes, Option, Result, [], ascii, ensure, err, if◌then◌else◌, length, none, not, ok, some, take,
  ◌&&◌, ◌==◌, ◌||◌, ◌∷◌, bytes_eq, nat_eq, ◌>>◌, ◌>>=◌,
}
use bridge_remote_signer.Signer.SigUtils.{Curve, off_curve_panic, der_to_eth_sig, compress}
use bridge_remote_signer.Signer.Types.{
  Signer, SignerError, BackendFactory, required, optional, wrong_length, signing_failed,
  conversion_failed, missing_option, get_sobject_failed, wrong_object_type, wrong_curve,
  no_public_key, bad_spki, bad_point,
}

pub data KeyDescriptor : Type 0 where
  kid : Bytes → KeyDescriptor
  key_name : Bytes → KeyDescriptor

pub record Sobject : Type 0 where
  pub obj_type : Bytes
  pub elliptic_curve : Option Bytes
  pub pub_key : Option Bytes

pub data DigestAlgorithm : Type 0 where
  sha_256 : DigestAlgorithm

pub record SignRequest : Type 0 where
  pub hash : Bytes
  pub hash_alg : DigestAlgorithm
  pub key : KeyDescriptor

-- `none` stands for an error. `sign` gives the DER signature of the response.
pub record DsmClient : Type 0 where
  pub get_sobject : KeyDescriptor → Option Sobject
  pub sign : SignRequest → Option Bytes

-- The SDK with its constants, and the public key's bits in an SPKI.
pub record Dsm : Type 0 where
  pub client : Bytes → Bytes → DsmClient
  pub object_type_ec : Bytes
  pub curve_secp256k1 : Bytes
  pub unmarshal_spki : Bytes → Option Bytes

pub record FortanixDsmConfig : Type 0 where
  pub api_endpoint : Bytes
  pub api_key : Bytes
  pub key_id : Bytes
  pub key_name : Bytes

pub record FortanixDsmSigner : Type 0 where
  pub client : DsmClient
  pub key_descriptor : KeyDescriptor
  pub compressed_pub_key : Bytes

module _ (c : Curve) (dsm : Dsm) where
  unfoldable pub parse_spki_to_secp256k1 : Bytes → Result SignerError Bytes
  parse_spki_to_secp256k1 der = elim (dsm.unmarshal_spki der) [
    | none ↦ err bad_spki
    | some raw ↦
        if not (length raw == 65) || not (take 1 raw == 4 ∷ [])
        then err bad_point
        else elim (compress c raw) [
          | none ↦ err (conversion_failed off_curve_panic)
          | some compressed ↦ ok compressed
        ]
  ]

  unfoldable pub fetch_dsm_public_key : DsmClient → KeyDescriptor → Result SignerError Bytes
  fetch_dsm_public_key client descriptor = elim (client.get_sobject descriptor) [
    | none ↦ err get_sobject_failed
    | some sobject ↦ do
      ensure (sobject.obj_type == dsm.object_type_ec) wrong_object_type
      elim sobject.elliptic_curve [
        | none ↦ err wrong_curve
        | some curve ↦ ensure (curve == dsm.curve_secp256k1) wrong_curve
      ]
      elim sobject.pub_key [ none ↦ err no_public_key | some raw ↦ parse_spki_to_secp256k1 raw ]
  ]

  unfoldable pub descriptor_of : FortanixDsmConfig → KeyDescriptor
  descriptor_of cfg = if cfg.key_id == [] then key_name cfg.key_name else kid cfg.key_id

  unfoldable pub new_fortanix_dsm_signer : FortanixDsmConfig → Result SignerError FortanixDsmSigner
  new_fortanix_dsm_signer cfg = do
    ensure (not (cfg.api_endpoint == [])) (missing_option (ascii "dsm_api_endpoint"))
    ensure (not (cfg.api_key == [])) (missing_option (ascii "dsm_api_key"))
    ensure (not (cfg.key_id == [] && cfg.key_name == []))
        (missing_option (ascii "dsm_key_id or dsm_key_name"))
    compressed ← fetch_dsm_public_key (dsm.client cfg.api_endpoint cfg.api_key) (descriptor_of cfg)
    ok (record {
      client = dsm.client cfg.api_endpoint cfg.api_key;
      key_descriptor = descriptor_of cfg;
      compressed_pub_key = compressed;
    })

  -- The request for a digest, and its response in Ethereum's form: what `Sign` and `SignRaw` share.
  unfoldable pub sign_digest : FortanixDsmSigner → Bytes → Result SignerError Bytes
  sign_digest s hash =
      elim (s.client.sign (record { hash = hash; hash_alg = sha_256; key = s.key_descriptor })) [
        | none ↦ err signing_failed
        | some der ↦ elim (der_to_eth_sig c der hash s.compressed_pub_key) [
          | err e ↦ err (conversion_failed e)
          | ok sig ↦ ok sig
        ]
      ]

module _ (sha256 : Bytes → Bytes) (c : Curve) (dsm : Dsm) where
  unfoldable pub sign : FortanixDsmSigner → Bytes → Result SignerError Bytes
  sign s msg = do
    ensure (length msg == 32) (wrong_length (length msg))
    sign_digest c dsm s (sha256 msg)

  unfoldable pub sign_raw : FortanixDsmSigner → Bytes → Result SignerError Bytes
  sign_raw s msg = do
    ensure (length msg == 32) (wrong_length (length msg))
    sig ← sign_digest c dsm s msg
    ok (take 64 sig)

  -- A copy of the cached key.
  unfoldable pub get_public_key : FortanixDsmSigner → Result SignerError Bytes
  get_public_key s = ok s.compressed_pub_key

  unfoldable pub backend : FortanixDsmSigner → Signer
  backend s = record { sign = sign s; sign_raw = sign_raw s; get_public_key = get_public_key s }

  unfoldable pub new_fortanix_dsm_signer_from_config : BackendFactory
  new_fortanix_dsm_signer_from_config raw = do
    api_endpoint ← required (ascii "dsm_api_endpoint") raw
    api_key ← required (ascii "dsm_api_key") raw
    let key_id = optional (ascii "dsm_key_id") raw
    let key_name = optional (ascii "dsm_key_name") raw
    ensure (not (key_id == [] && key_name == []))
        (missing_option (ascii "dsm_key_id or dsm_key_name"))
    s ← new_fortanix_dsm_signer c dsm (record {
      api_endpoint = api_endpoint;
      api_key = api_key;
      key_id = key_id;
      key_name = key_name;
    })
    ok (backend s)
