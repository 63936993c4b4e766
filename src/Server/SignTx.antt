-- ===== src/Server/SignTx.antt =====
-- `SignTx` of server/server.go. The protobuf decoders of the Cosmos SDK are parameters: the body
-- bytes of a sign doc, and the type URLs of a body's messages. The allowlist is a set, as a list.
-- The result comes with the digests that the backend was given.
pub mod Laws
use bridge_remote_signer.Server.Crypto.{Crypto}
use bridge_remote_signer.Base.{
  Bool, Bytes, List, Option, Result, [], ensure, err, false, length, none, not, ok, some, ◌==◌,
  ◌||◌, ◌∷◌, bytes_eq, nat_eq, ◌>>◌,
}

pub record TxDecoder : Type 0 where
  pub body_bytes : Bytes → Option Bytes
  pub type_urls : Bytes → Option (List Bytes)

pub data SignTxError : Type 0 where
  empty_sign_doc bad_sign_doc bad_tx_body no_messages : SignTxError
  not_allowed : Bytes → SignTxError
  tx_signing_failed : SignTxError

abbrev pub SignTxResult : Type 0
SignTxResult = List Bytes × Result SignTxError Bytes

-- `_, ok := allowed[url]`
unfoldable pub is_allowed : Bytes → List Bytes → Bool
is_allowed url [] = false
is_allowed url (a ∷ allowed) = a == url || is_allowed url allowed

pub check_messages : List Bytes → List Bytes → Result SignTxError (Unit {0})
check_messages allowed [] = ok tt
check_messages allowed (url ∷ urls) = do
  ensure (is_allowed url allowed) (not_allowed url)
  check_messages allowed urls

module _ (c : Crypto) (decoder : TxDecoder) where
  pub check_tx : List Bytes → Bytes → Result SignTxError (Unit {0})
  unfolding check_messages
  check_tx allowed sign_doc = do
    ensure (not (length sign_doc == 0)) empty_sign_doc
    elim (decoder.body_bytes sign_doc) [
      | none ↦ err bad_sign_doc
      | some body ↦ elim (decoder.type_urls body) [
        | none ↦ err bad_tx_body
        | some urls ↦ do ensure (not (length urls == 0)) no_messages; check_messages allowed urls
      ]
    ]

  unfoldable pub sign_tx : (Bytes → Option Bytes) → List Bytes → Bytes → SignTxResult
  unfolding check_tx
  sign_tx sign_raw allowed sign_doc = elim (check_tx allowed sign_doc) [
    | err e ↦ ([], err e)
    | ok done ↦ (
      c.sha256 sign_doc ∷ [],
      elim (sign_raw (c.sha256 sign_doc)) [ none ↦ err tx_signing_failed | some sig ↦ ok sig ],
    )
  ]
