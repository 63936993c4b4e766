-- ===== src/Tls/Laws.antt =====
-- What the credentials make each end check of the other.
use bridge_remote_signer.Base.{
  Bytes, Option-cases, Result-cases, [], arith, inl, inr, ok, some, ◌∷◌, ◌≡◌,
}
use bridge_remote_signer.Tls.{
  TlsLibrary, TlsConfig, load_ca_cert, new_server_credentials, require_and_verify_client_cert,
  version_tls13,
}

module _ (lib : TlsLibrary) where
  -- The certificates of the file at this path.
  abbrev pub IsCa : Bytes → lib.CertPool → Type 0
  IsCa path pool =
      (pem : Bytes) × (lib.read_file path ≡ some pem) × (lib.append_certs_from_pem pem ≡ some pool)

  -- A client without a certificate of the operator's CA is refused in the handshake, and so is any
  -- version before TLS 1.3; the server shows its own certificate.
  pub record IsMutualTls (ca cert key : Bytes) (cfg : TlsConfig lib) : Type 0 where
    pub verifies : cfg.client_auth ≡ require_and_verify_client_cert
    pub pool : lib.CertPool
    pub trusts : cfg.client_cas ≡ some pool
    pub of_ca : IsCa ca pool
    pub shown : lib.Certificate
    pub shows : cfg.certificates ≡ shown ∷ []
    pub own : lib.load_x509_key_pair cert key ≡ some shown
    pub version : cfg.min_version ≡ version_tls13

  load_ca_cert-IsCa :
      (path : Bytes) (pool : lib.CertPool) → load_ca_cert lib path ≡ ok pool → IsCa path pool
  unfolding load_ca_cert
  load_ca_cert-IsCa path pool h = elim (Option-cases (lib.read_file path)) [
    | inl e ↦ ground arith
    | inr (pem, e) ↦ elim (Option-cases (lib.append_certs_from_pem pem)) [
      | inl f ↦ ground arith
      | inr (found, f) ↦ (pem, e, ground arith)
    ]
  ]

  pub new_server_credentials-IsMutualTls :
      (ca cert key : Bytes) (cfg : TlsConfig lib)
      → new_server_credentials lib ca cert key ≡ ok cfg
      → IsMutualTls ca cert key cfg
  unfolding new_server_credentials
  new_server_credentials-IsMutualTls ca cert key cfg h =
      elim (Option-cases (lib.load_x509_key_pair cert key)) [
        | inl e ↦ ground arith
        | inr (shown, e) ↦ elim (Result-cases (load_ca_cert lib ca)) [
          | inl (x, f) ↦ ground arith
          | inr (pool, f) ↦ record {
            verifies = ground arith;
            pool = pool;
            trusts = ground arith;
            of_ca = load_ca_cert-IsCa ca pool f;
            shown = shown;
            shows = ground arith;
            own = e;
            version = ground arith;
          }
        ]
      ]
