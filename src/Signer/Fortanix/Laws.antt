-- ===== src/Signer/Fortanix/Laws.antt =====
-- The Fortanix backend against the promises of the interface.
use bridge_remote_signer.Signer.Types.{RawConfig, Signer, optional, required}
use bridge_remote_signer.Base.{
  Bytes, Option-cases, Result-cases, [], ap, arith, ascii, inl, inr, length, ok, refl, subst, sym,
  take, ℕ, ◌+◌, ◌∙◌, ◌∷◌, ◌≡◌, ◌≤◌,
}
use bridge_remote_signer.Signer.SigUtils.{Curve}
use bridge_remote_signer.Signer.SigUtils.Laws.{Recovers, take_prefix}
use bridge_remote_signer.Signer.SigUtils.Shape.{IsEthForm, der_to_eth_sig-IsEthForm}
use bridge_remote_signer.Signer.Contract.{IsBackend}
use bridge_remote_signer.Signer.Fortanix.{
  Dsm, FortanixDsmSigner, sign_digest, sign, sign_raw, get_public_key, backend, sha_256,
  new_fortanix_dsm_signer_from_config, new_fortanix_dsm_signer,
}

module _ (sha256 : Bytes → Bytes) (c : Curve) (dsm : Dsm) (s : FortanixDsmSigner) where
  sign_digest-IsEthForm :
      (hash sig : Bytes)
      → sign_digest c dsm s hash ≡ ok sig
      → IsEthForm c hash s.compressed_pub_key sig
  unfolding sign_digest
  sign_digest-IsEthForm hash sig h =
      elim (Option-cases
        (s.client.sign (record { hash = hash; hash_alg = sha_256; key = s.key_descriptor }))) [
          | inl e ↦ ground arith
          | inr (der, e) ↦
              der_to_eth_sig-IsEthForm c der hash s.compressed_pub_key sig (ground arith)
        ]

  sign_raw_answers :
      (msg sig : Bytes)
      → sign_raw sha256 c dsm s msg ≡ ok sig
      → (length sig ≡ 64) × (v : ℕ) × (v ≤ 1) × Recovers c msg s.compressed_pub_key sig v
  unfolding sign_raw
  sign_raw_answers msg sig h = elim (Result-cases (sign_digest c dsm s msg)) [
    | inl (x, e) ↦ ground arith
    | inr (full, e) ↦
        let (rs, v, laid_out, size, bit, there) = sign_digest-IsEthForm msg full e in
        let cut : take 64 full ≡ sig = ground arith in
        let same : rs ≡ sig =
          sym (take_prefix 64 rs ((v + 27) ∷ []) size) ∙ sym (ap (take 64) laid_out) ∙ cut in
        subst
          (λ xs. (length xs ≡ 64) × (w : ℕ) × (w ≤ 1) × Recovers c msg s.compressed_pub_key xs w)
          same (size, v, bit, there)
  ]

  backend-IsBackend : IsBackend c sha256 s.compressed_pub_key (backend sha256 c dsm s)
  unfolding backend sign sign_raw get_public_key
  backend-IsBackend = record {
    key_served = refl;
    sign_refuses = λ msg h. ground arith;
    sign_raw_refuses = λ msg h. ground arith;
    sign_answers = λ msg sig h. sign_digest-IsEthForm (sha256 msg) sig (ground arith);
    sign_raw_answers = λ msg sig h. sign_raw_answers msg sig h;
  }

module _ (sha256 : Bytes → Bytes) (c : Curve) (dsm : Dsm) where
  pub new_fortanix_dsm_signer_from_config-IsBackend :
      (raw : RawConfig) (b : Signer)
      → new_fortanix_dsm_signer_from_config sha256 c dsm raw ≡ ok b
      → (key : Bytes) × IsBackend c sha256 key b
  unfolding new_fortanix_dsm_signer_from_config
  new_fortanix_dsm_signer_from_config-IsBackend raw b h =
      let key_id : Bytes = optional (ascii "dsm_key_id") raw in
      let name : Bytes = optional (ascii "dsm_key_name") raw in
      elim (Result-cases (required (ascii "dsm_api_endpoint") raw)) [
        | inl (x, e) ↦ ground arith
        | inr (endpoint, e) ↦ elim (Result-cases (required (ascii "dsm_api_key") raw)) [
          | inl (x, f) ↦ ground arith
          | inr (api_key, f) ↦
              elim (Result-cases (
                new_fortanix_dsm_signer c dsm (record {
                  api_endpoint = endpoint;
                  api_key = api_key;
                  key_id = key_id;
                  key_name = name;
                }))) [
                  | inl (x, g) ↦ ground arith
                  | inr (s, g) ↦
                      let built : backend sha256 c dsm s ≡ b = ground arith in
                      (
                        s.compressed_pub_key,
                        subst (IsBackend c sha256 s.compressed_pub_key) built
                            (backend-IsBackend sha256 c dsm s),
                      )
                ]
        ]
      ]
