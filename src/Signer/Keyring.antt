-- ===== src/Signer/Keyring.antt =====
-- signer/keyring.go: the password file, its reader, and the key bytes of a keyring record.
pub mod Reads
pub mod Laws
use bridge_remote_signer.Base.{
  Bool, Bytes, Option, Result, [], drop, ensure, err, if◌then◌else◌, leb, length, none, not, ok,
  some, some_or, take, ℕ, ◌%◌, ◌&&◌, ◌++◌, ◌+◌, ◌==◌, ◌||◌, ◌∷◌, bytes_eq, nat_eq, ◌>>◌, ◌>>=◌,
}
use bridge_remote_signer.Signer.Types.{
  SignerError, password_stat_failed, password_permissions, password_read_failed, password_empty,
  stdin_not_terminal, nil_record, not_local, unpack_failed, not_secp256k1, bad_key_length,
}

-- The calls of os and term: `none` stands for an error, `stat` gives the permission bits.
pub record Surroundings : Type 0 where
  pub stat : Bytes → Option ℕ
  pub read_file : Bytes → Option Bytes
  pub stdin_is_terminal : Bool

-- `repeatingReader`, with the whole line and the offset in it, or stdin.
pub record RepeatingReader : Type 0 where
  pub line : Bytes
  pub off : ℕ

pub data PasswordReader : Type 0 where
  file : RepeatingReader → PasswordReader
  stdin : PasswordReader

-- `bytes.TrimRight(data, "\r\n")`
unfoldable pub trim_right : Bytes → Bytes
trim_right [] = []
trim_right (b ∷ bs) =
    let rest = trim_right bs in if rest == [] && (b == 10 || b == 13) then [] else b ∷ rest

-- `perm & 0o077`: group and others.
abbrev pub group_and_others : ℕ → ℕ
group_and_others perm = perm % 64

unfoldable pub build_file_password_reader :
    Surroundings → Bytes → Result SignerError RepeatingReader
build_file_password_reader env path = do
  perm ← some_or password_stat_failed (env.stat path)
  ensure (group_and_others perm == 0) (password_permissions perm)
  contents ← some_or password_read_failed (env.read_file path)
  ensure (not (trim_right contents == [])) password_empty
  ok (record { line = trim_right contents ++ 10 ∷ []; off = 0 })

unfoldable pub build_password_reader : Surroundings → Bytes → Result SignerError PasswordReader
build_password_reader env password_file =
    if password_file == []
    then (if env.stdin_is_terminal then ok stdin else err stdin_not_terminal)
    else elim (build_file_password_reader env password_file) [ err e ↦ err e | ok r ↦ ok (file r) ]

-- `Read(p)` for a slice of `size` bytes: the bytes copied, and the reader afterwards.
unfoldable pub read : RepeatingReader → ℕ → Bytes × RepeatingReader
read r size =
    let off = if leb (length r.line) r.off then 0 else r.off in
    let chunk = take size (drop off r.line) in
    (chunk, record { line = r.line; off = off + length chunk })

-- A keyring record: its `GetLocal`, with the wrapped private key.
pub record Record : Type 0 where
  pub local : Option Bytes

-- A private key that `UnpackAny` gives: cosmos' secp256k1, or another type.
pub data PrivKey : Type 0 where
  secp256k1 : Bytes → PrivKey
  other : PrivKey

pub record KeyCodec : Type 0 where
  pub unpack_any : Bytes → Option PrivKey

abbrev pub secp256k1_key_len : ℕ
secp256k1_key_len = 32

unfoldable pub extract_secp_priv_key_bytes : KeyCodec → Option Record → Result SignerError Bytes
extract_secp_priv_key_bytes codec none = err nil_record
extract_secp_priv_key_bytes codec (some entry) = elim entry.local [
  | none ↦ err not_local
  | some priv_key ↦ elim (codec.unpack_any priv_key) [
    | none ↦ err unpack_failed
    | some other ↦ err not_secp256k1
    | some (secp256k1 key) ↦ do
      ensure (length key == secp256k1_key_len) (bad_key_length (length key))
      ok key
  ]
]
