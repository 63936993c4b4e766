-- ===== src/Server/Registration/Laws.antt =====
-- The registration is signed for the signer's own operator only.
use bridge_remote_signer.Server.Registration.{
  sign_initial, check_operator, InitialResponse, sign_messages, InitialResult,
  initial_registration_messages, initial_signing_digest,
}
use bridge_remote_signer.Server.Crypto.{Crypto}
use bridge_remote_signer.Base.{
  Bytes, Option, Result-cases, [], arith, ascii, inl, inr, length, ok, refl, some, ◌++◌, ◌↔◌, ◌∷◌,
  ◌≡◌, ◌≢◌, ◌⊎◌,
}

module _ (c : Crypto) (decode_and_convert : Bytes → Option Bytes) where
  -- An operator address that decodes to the signer's own account.
  abbrev pub IsOwnOperator : Bytes → Bytes → Type 0
  IsOwnOperator self_cosmos_addr operator_address =
      (operator_address ≢ []) × (decode_and_convert operator_address ≡ some self_cosmos_addr)

  check_operator-IsOwnOperator :
      (self_cosmos_addr operator_address : Bytes)
      → (check_operator c decode_and_convert self_cosmos_addr operator_address ≡ ok tt)
        ↔ IsOwnOperator self_cosmos_addr operator_address
  unfolding check_operator
  check_operator-IsOwnOperator self_cosmos_addr operator_address = ground arith

  -- The double hash of a registration message.
  abbrev pub digest_of : Bytes → Bytes
  digest_of message = c.sha256 (c.sha256 message)

  abbrev pub prefix_a : Bytes
  prefix_a = ascii "TellorLayer: Initial bridge signature A for operator "

  abbrev pub prefix_b : Bytes
  prefix_b = ascii "TellorLayer: Initial bridge signature B for operator "

  -- Both signatures are the backend's, of 64 bytes, for the operator's two messages.
  abbrev pub IsSigned :
      (Bytes → Option Bytes) → (Bytes → Option Bytes) → Bytes → InitialResponse → Type 0
  IsSigned sign_a sign_b operator_address res =
      (sign_a (digest_of (prefix_a ++ operator_address)) ≡ some res.signature_a)
      × (length res.signature_a ≡ 64)
      × (sign_b (digest_of (prefix_b ++ operator_address)) ≡ some res.signature_b)
      × (length res.signature_b ≡ 64)

  abbrev pub InitialOutcome :
      (Bytes → Option Bytes) → (Bytes → Option Bytes) → Bytes → Bytes → InitialResult → Type 0
  InitialOutcome sign_a sign_b self_cosmos_addr operator_address (asked, result) =
      ((¬ IsOwnOperator self_cosmos_addr operator_address)
        × (asked ≡ [])
        × ((res : InitialResponse) → result ≢ ok res))
      ⊎ (IsOwnOperator self_cosmos_addr operator_address
          × ((asked ≡ digest_of (prefix_a ++ operator_address) ∷ [])
              ⊎ (asked
                  ≡ digest_of (prefix_a ++ operator_address)
                    ∷ digest_of (prefix_b ++ operator_address)
                    ∷ []))
          × ((res : InitialResponse)
              → (result ≡ ok res) ↔ IsSigned sign_a sign_b operator_address res))

  sign_messages_lem :
      (sign_a sign_b : Bytes → Option Bytes) (operator_address : Bytes) (res : InitialResponse)
      → ((sign_messages c decode_and_convert sign_a sign_b operator_address).1 ≡ ok res)
        ↔ IsSigned sign_a sign_b operator_address res
  unfolding sign_messages initial_registration_messages initial_signing_digest
  sign_messages_lem sign_a sign_b operator_address res = ground arith

  sign_messages_asked :
      (sign_a sign_b : Bytes → Option Bytes) (operator_address : Bytes)
      → let asked = (sign_messages c decode_and_convert sign_a sign_b operator_address).0 in
        (asked ≡ digest_of (prefix_a ++ operator_address) ∷ [])
        ⊎ (asked
            ≡ digest_of (prefix_a ++ operator_address)
              ∷ digest_of (prefix_b ++ operator_address)
              ∷ [])
  unfolding sign_messages initial_registration_messages initial_signing_digest
  sign_messages_asked sign_a sign_b operator_address = ground arith

  -- For an operator address that does not decode to the signer's own account nothing is signed.
  -- For its own, the backend is given the double hashes of the operator's two fixed messages and
  -- nothing else, the second one only after the first, and the answer holds both signatures
  -- exactly if both calls succeed with 64 bytes.
  pub sign_initial-IsOwnOperator :
      (sign_a sign_b : Bytes → Option Bytes) (self_cosmos_addr operator_address : Bytes)
      → InitialOutcome sign_a sign_b self_cosmos_addr operator_address
          (sign_initial c decode_and_convert sign_a sign_b self_cosmos_addr operator_address)
  unfolding sign_initial
  sign_initial-IsOwnOperator sign_a sign_b self operator =
      elim (Result-cases (check_operator c decode_and_convert self operator)) [
        | inl (e, refused) ↦
            rw (refused, sign_initial)
              (inl (
                λ v. let p = (check_operator-IsOwnOperator self operator).1 v in cc,
                refl,
                λ res h. cc,
              ))
        | inr (done, passed) ↦
            rw (passed, sign_initial)
              (inr (
                (check_operator-IsOwnOperator self operator).0 passed,
                sign_messages_asked sign_a sign_b operator,
                sign_messages_lem sign_a sign_b operator,
              ))
      ]
