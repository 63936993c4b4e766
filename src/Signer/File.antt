-- ===== src/Signer/File.antt =====
-- signer/file_signer.go: the backend whose key comes from a keyring on the disk. The keyring and
-- go-ethereum's keys are parameters; signer/keyring.go reads the password and the record.
pub mod Laws
use bridge_remote_signer.Base.{
  Bytes, Option, Result, [], ascii, drop, ensure, leb, length, none, not, ok, some, some_or, take,
  ◌%◌, ◌++◌, ◌+◌, ◌==◌, ◌∷◌, bytes_eq, nat_eq, ◌>>◌, ◌>>=◌,
}
use bridge_remote_signer.Signer.Types.{
  Signer, SignerError, BackendFactory, required, optional, wrong_length, signing_failed,
  missing_option, index_panic, keyring_failed, key_not_found, bad_key,
}
use bridge_remote_signer.Signer.Keyring.{
  Record, KeyCodec, Surroundings, PasswordReader, build_password_reader,
  extract_secp_priv_key_bytes,
}

-- A private key of go-ethereum, the calls on it, and the keyring. `none` stands for an error.
pub record KeyLibrary : Type 1 where
  pub PrivateKey : Type 0
  pub to_ecdsa : Bytes → Option PrivateKey
  pub compress_pubkey : PrivateKey → Bytes
  pub sign : Bytes → PrivateKey → Option Bytes
  pub Keyring : Type 0
  pub open_keyring : Bytes → PasswordReader → Option Keyring
  pub key_record : Keyring → Bytes → Option (Option Record)
  pub codec : KeyCodec

-- `sig[64] += 27`, a byte that wraps; it panics when there is no such byte.
unfoldable pub add_27 : Bytes → Option Bytes
add_27 sig = elim (drop 64 sig) [
  | [] ↦ none
  | v ∷ rest ↦ some (take 64 sig ++ ((v + 27) % 256) ∷ rest)
]

module _ (lib : KeyLibrary) where
  pub record FileSigner : Type 0 where
    pub private_key : lib.PrivateKey
    pub compressed_pub_key : Bytes

  unfoldable pub new_file_signer :
      Surroundings → Bytes → Bytes → Bytes → Result SignerError FileSigner
  new_file_signer env keyring_dir key_name pw_file = do
    ensure (not (keyring_dir == [])) (missing_option (ascii "keyring_dir"))
    ensure (not (key_name == [])) (missing_option (ascii "key_name"))
    pass_reader ← build_password_reader env pw_file
    kr ← some_or keyring_failed (lib.open_keyring keyring_dir pass_reader)
    entry ← some_or key_not_found (lib.key_record kr key_name)
    key_bytes ← extract_secp_priv_key_bytes lib.codec entry
    private_key ← some_or bad_key (lib.to_ecdsa key_bytes)
    ok (record { private_key = private_key; compressed_pub_key = lib.compress_pubkey private_key })

module _ (sha256 : Bytes → Bytes) (lib : KeyLibrary) where
  unfoldable pub sign : FileSigner lib → Bytes → Result SignerError Bytes
  sign s msg = do
    ensure (length msg == 32) (wrong_length (length msg))
    sig ← some_or signing_failed (lib.sign (sha256 msg) s.private_key)
    some_or index_panic (add_27 sig)

  -- `sig[:64]` panics on a shorter signature.
  unfoldable pub sign_raw : FileSigner lib → Bytes → Result SignerError Bytes
  sign_raw s msg = do
    ensure (length msg == 32) (wrong_length (length msg))
    sig ← some_or signing_failed (lib.sign msg s.private_key)
    ensure (leb 64 (length sig)) index_panic
    ok (take 64 sig)

  unfoldable pub get_public_key : FileSigner lib → Result SignerError Bytes
  get_public_key s = ok s.compressed_pub_key

  unfoldable pub backend : FileSigner lib → Signer
  backend s = record { sign = sign s; sign_raw = sign_raw s; get_public_key = get_public_key s }

  unfoldable pub new_file_signer_from_config : Surroundings → BackendFactory
  new_file_signer_from_config env raw = do
    keyring_dir ← required (ascii "keyring_dir") raw
    key_name ← required (ascii "key_name") raw
    s ← new_file_signer lib env keyring_dir key_name (optional (ascii "password_file") raw)
    ok (backend s)
