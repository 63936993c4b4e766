-- ===== src/Consensus/ConnKey.antt =====
-- consensus/connkey.go: the identity with which the signer dials a node. JSON, base64 and the key
-- generator are parameters.
use bridge_remote_signer.Text.{trim_white_space}
use bridge_remote_signer.Consensus.StateFile.{
  Entry, absent, directory, regular, WriteEnd, write_file,
}
use bridge_remote_signer.Base.{
  Bool, Bytes, Option, Result, [], ascii, ensure, err, false, if◌then◌else◌, length, none, ok, some,
  some_or, true, ℕ, ◌==◌, ◌||◌, ◌∷◌, bytes_eq, nat_eq, ◌>>◌, ◌>>=◌,
}
pub mod Laws
mod Tests

-- The types nodeKeyJSON and privValidatorKeyJSON have the same fields.
pub record CryptoKeyJson : Type 0 where
  pub type : Bytes
  pub value : Bytes

pub record KeyCodec : Type 0 where
  pub unmarshal : Bytes → Option CryptoKeyJson
  pub marshal_indent : CryptoKeyJson → Option Bytes
  pub decode_base64 : Bytes → Option Bytes
  pub encode_base64 : Bytes → Bytes

pub data ConnKeyError : Type 0 where
  read_failed : ConnKeyError
  unrecognized_json : ConnKeyError
  bad_raw_key : ConnKeyError
  bad_base64 : ConnKeyError
  unsupported_type : Bytes → ConnKeyError
  marshal_failed : ConnKeyError
  write_failed : ConnKeyError

abbrev pub private_key_size : ℕ
private_key_size = 64

abbrev pub tendermint_type : Bytes
tendermint_type = ascii "tendermint/PrivKeyEd25519"

abbrev pub comet_type : Bytes
comet_type = ascii "comet/PrivKeyEd25519"

abbrev pub starts_with_brace : Bytes → Bool
starts_with_brace [] = false
starts_with_brace (b ∷ bs) = b == 123

module _ (codec : KeyCodec) where
  unfoldable pub decode_key_json : CryptoKeyJson → Result ConnKeyError Bytes
  decode_key_json k =
      if k.type == tendermint_type || k.type == comet_type
      then some_or bad_base64 (codec.decode_base64 k.value)
      else err (unsupported_type k.type)

  -- The second attempt, for the other type, reads the same fields of the same bytes.
  unfoldable pub decode_json : Bytes → Result ConnKeyError Bytes
  decode_json b = elim (codec.unmarshal b) [
    | none ↦ err unrecognized_json
    | some k ↦ if k.type == [] then err unrecognized_json else decode_key_json k
  ]

  unfoldable pub decode_raw : Bytes → Result ConnKeyError Bytes
  decode_raw b = do
    raw ← some_or bad_raw_key (codec.decode_base64 b)
    ensure (length raw == private_key_size) bad_raw_key
    ok raw

  unfoldable pub load_ed25519_priv_key : Option Bytes → Result ConnKeyError Bytes
  load_ed25519_priv_key file = do
    b ← some_or read_failed file
    let trimmed = trim_white_space b
    if starts_with_brace trimmed then decode_json trimmed else decode_raw trimmed

  -- A fresh key is generated only if there is no file. `fails`: stat and read fail, with an error
  -- other than `os.IsNotExist`. What stands at the path afterwards is beside the outcome.
  unfoldable pub gen_or_load_conn_key :
      Bool → WriteEnd → Bytes → Entry → Entry × Result ConnKeyError Bytes
  gen_or_load_conn_key true end fresh entry = (entry, load_ed25519_priv_key none)
  gen_or_load_conn_key false end fresh directory = (directory, load_ed25519_priv_key none)
  gen_or_load_conn_key false end fresh (regular b) = (regular b, load_ed25519_priv_key (some b))
  gen_or_load_conn_key false end fresh absent =
      elim (codec.marshal_indent
        (record { type = tendermint_type; value = codec.encode_base64 fresh })) [
          | none ↦ (absent, err marshal_failed)
          | some out ↦
              let (entry, done) = write_file end out absent in
              (entry, if done then ok fresh else err write_failed)
        ]
