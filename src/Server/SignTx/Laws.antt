-- ===== src/Server/SignTx/Laws.antt =====
-- A transaction is signed exactly when each of its messages is on the allowlist.
use bridge_remote_signer.Server.SignTx.{
  is_allowed, check_messages, TxDecoder, check_tx, SignTxResult, sign_tx,
}
use bridge_remote_signer.Server.Crypto.{Crypto}
use bridge_remote_signer.Base.{
  All, Any, Bytes, List, Option, Option-cases, Result-cases, [], arith, inl, inr, ok, refl, some,
  true, ◌↔◌, ◌∷◌, ◌≡◌, ◌≢◌, ◌⊎◌,
}

is_allowed-Any :
    (url : Bytes) (allowed : List Bytes)
    → (is_allowed url allowed ≡ true) ↔ Any (λ a. a ≡ url) allowed
unfolding is_allowed
is_allowed-Any url [] = ground arith
is_allowed-Any url (a ∷ allowed) = ground (arith, is_allowed-Any url allowed)

check_messages-All :
    (allowed urls : List Bytes)
    → (check_messages allowed urls ≡ ok tt) ↔ All (λ url. Any (λ a. a ≡ url) allowed) urls
unfolding check_messages
check_messages-All allowed [] = ground arith
check_messages-All allowed (url ∷ urls) =
    ground (arith, is_allowed-Any url allowed, check_messages-All allowed urls)

module _ (c : Crypto) (decoder : TxDecoder) where
  -- A sign doc with messages, each of a type on the allowlist.
  pub record IsAllowedTx (allowed : List Bytes) (sign_doc : Bytes) : Type 0 where
    pub some_byte : sign_doc ≢ []
    pub body : Bytes
    pub has_body : decoder.body_bytes sign_doc ≡ some body
    pub urls : List Bytes
    pub has_urls : decoder.type_urls body ≡ some urls
    pub some_message : urls ≢ []
    pub each : All (λ url. Any (λ a. a ≡ url) allowed) urls

  check_tx_sound :
      (allowed : List Bytes) (sign_doc : Bytes)
      → check_tx c decoder allowed sign_doc ≡ ok tt
      → IsAllowedTx allowed sign_doc
  unfolding check_tx
  check_tx_sound allowed sign_doc h = elim (Option-cases (decoder.body_bytes sign_doc)) [
    | inl e ↦ absurd (ground arith)
    | inr (body, e) ↦ elim (Option-cases (decoder.type_urls body)) [
      | inl e' ↦ absurd (ground arith)
      | inr (urls, e') ↦ record {
        some_byte = ground arith;
        body = body;
        has_body = e;
        urls = urls;
        has_urls = e';
        some_message = ground arith;
        each = (check_messages-All allowed urls).0 (ground arith);
      }
    ]
  ]

  check_tx-IsAllowedTx :
      (allowed : List Bytes) (sign_doc : Bytes)
      → (check_tx c decoder allowed sign_doc ≡ ok tt) ↔ IsAllowedTx allowed sign_doc
  unfolding check_tx
  check_tx-IsAllowedTx allowed sign_doc = (
    check_tx_sound allowed sign_doc,
    λ v.
        let k = (check_messages-All allowed v.urls).1 v.each in
        let e = v.has_body in
        let e' = v.has_urls in let n = v.some_message in let b = v.some_byte in ground arith,
  )

  abbrev pub TxOutcome : (Bytes → Option Bytes) → List Bytes → Bytes → SignTxResult → Type 0
  TxOutcome sign_raw allowed sign_doc (asked, result) =
      ((¬ IsAllowedTx allowed sign_doc) × (asked ≡ []) × ((sig : Bytes) → result ≢ ok sig))
      ⊎ (IsAllowedTx allowed sign_doc
          × (asked ≡ c.sha256 sign_doc ∷ [])
          × ((sig : Bytes) → (result ≡ ok sig) ↔ (sign_raw (c.sha256 sign_doc) ≡ some sig)))

  -- A sign doc that does not decode, has no message or has one that is not on the allowlist is
  -- refused, and the backend is not asked. For any other, the backend is asked once, for the
  -- doc's hash, and its answer is passed on.
  pub sign_tx-IsAllowedTx :
      (sign_raw : Bytes → Option Bytes) (allowed : List Bytes) (sign_doc : Bytes)
      → TxOutcome sign_raw allowed sign_doc (sign_tx c decoder sign_raw allowed sign_doc)
  unfolding sign_tx
  sign_tx-IsAllowedTx sign_raw allowed sign_doc =
      elim (Result-cases (check_tx c decoder allowed sign_doc)) [
        | inl (e, refused) ↦
            rw (refused, sign_tx)
              (inl
                (λ v. let p = (check_tx-IsAllowedTx allowed sign_doc).1 v in cc, refl, λ sig h. cc))
        | inr (done, passed) ↦
            rw (passed, sign_tx)
              (inr (check_tx_sound allowed sign_doc passed, refl, λ sig. ground arith))
      ]
