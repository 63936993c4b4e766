-- ===== src/Tls.antt =====
-- api/tls/tls.go: the transport credentials of both ends. crypto/tls, crypto/x509 and the file system
-- are parameters.
use bridge_remote_signer.Base.{
  Bytes, List, Option, Result, [], ensure, none, not, ok, some, some_or, ℕ, ◌==◌, ◌∷◌, bytes_eq,
  nat_eq, ◌>>◌, ◌>>=◌,
}
pub mod Laws

-- `append_certs_from_pem` gives the certificates of a PEM file; `none` if it has no valid one.
pub record TlsLibrary : Type 1 where
  pub Certificate : Type 0
  pub CertPool : Type 0
  pub load_x509_key_pair : Bytes → Bytes → Option Certificate
  pub read_file : Bytes → Option Bytes
  pub append_certs_from_pem : Bytes → Option CertPool

pub data ClientAuth : Type 0 where
  no_client_cert : ClientAuth
  request_client_cert : ClientAuth
  require_any_client_cert : ClientAuth
  verify_client_cert_if_given : ClientAuth
  require_and_verify_client_cert : ClientAuth

pub data TlsError : Type 0 where
  key_pair_failed : TlsError
  ca_not_read : TlsError
  no_valid_certificates : TlsError
  empty_server_name : TlsError

abbrev pub version_tls13 : ℕ
version_tls13 = 772

module _ (lib : TlsLibrary) where
  -- The fields of `tls.Config` that the source sets; `none` and `no_client_cert` are zero values.
  pub record TlsConfig : Type 0 where
    pub certificates : List lib.Certificate
    pub client_auth : ClientAuth
    pub client_cas : Option lib.CertPool
    pub root_cas : Option lib.CertPool
    pub server_name : Bytes
    pub min_version : ℕ

  unfoldable pub load_ca_cert : Bytes → Result TlsError lib.CertPool
  load_ca_cert path = do
    pem ← some_or ca_not_read (lib.read_file path)
    some_or no_valid_certificates (lib.append_certs_from_pem pem)

  unfoldable pub new_server_credentials : Bytes → Bytes → Bytes → Result TlsError TlsConfig
  new_server_credentials ca_cert_path server_cert_path server_key_path = do
    server_cert ← some_or key_pair_failed (lib.load_x509_key_pair server_cert_path server_key_path)
    ca_pool ← load_ca_cert ca_cert_path
    ok (record {
      certificates = server_cert ∷ [];
      client_auth = require_and_verify_client_cert;
      client_cas = some ca_pool;
      root_cas = none;
      server_name = [];
      min_version = version_tls13;
    })

  unfoldable pub new_client_credentials : Bytes → Bytes → Bytes → Bytes → Result TlsError TlsConfig
  new_client_credentials ca_cert_path client_cert_path client_key_path server_name = do
    client_cert ← some_or key_pair_failed (lib.load_x509_key_pair client_cert_path client_key_path)
    ca_pool ← load_ca_cert ca_cert_path
    ensure (not (server_name == [])) empty_server_name
    ok (record {
      certificates = client_cert ∷ [];
      client_auth = no_client_cert;
      client_cas = none;
      root_cas = some ca_pool;
      server_name = server_name;
      min_version = version_tls13;
    })
