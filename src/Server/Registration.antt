-- ===== src/Server/Registration.antt =====
-- server/initial.go and `SignInitial` of server/server.go. The bech32 decoder is a parameter, and
-- the backend may answer each of its two calls differently. The result comes with the digests that
-- the backend was given, in order.
pub mod Laws
use bridge_remote_signer.Server.Crypto.{Crypto}
use bridge_remote_signer.Base.{
  Bytes, List, Option, Result, [], ascii, ensure, err, if◌then◌else◌, length, none, not, ok, some,
  ℕ, ◌++◌, ◌==◌, ◌∷◌, bytes_eq, nat_eq, ◌>>◌,
}

unfoldable pub initial_registration_messages : Bytes → Bytes × Bytes
initial_registration_messages operator_address = (
  ascii "TellorLayer: Initial bridge signature A for operator " ++ operator_address,
  ascii "TellorLayer: Initial bridge signature B for operator " ++ operator_address,
)

pub data InitialError : Type 0 where
  empty_operator invalid_operator operator_mismatch : InitialError
  signing_a_failed signing_b_failed : InitialError
  bad_signature_a bad_signature_b : ℕ → InitialError

pub record InitialResponse : Type 0 where
  pub signature_a : Bytes
  pub signature_b : Bytes

abbrev pub InitialResult : Type 0
InitialResult = List Bytes × Result InitialError InitialResponse

module _ (c : Crypto) (decode_and_convert : Bytes → Option Bytes) where
  unfoldable pub initial_signing_digest : Bytes → Bytes
  initial_signing_digest message = c.sha256 (c.sha256 message)

  pub check_operator : Bytes → Bytes → Result InitialError (Unit {0})
  check_operator self_cosmos_addr operator_address = do
    ensure (not (operator_address == [])) empty_operator
    elim (decode_and_convert operator_address) [
      | none ↦ err invalid_operator
      | some addr ↦ ensure (addr == self_cosmos_addr) operator_mismatch
    ]

  pub sign_messages : (Bytes → Option Bytes) → (Bytes → Option Bytes) → Bytes → InitialResult
  unfolding initial_signing_digest
  sign_messages sign_a sign_b operator_address =
      let (msg_a, msg_b) = initial_registration_messages operator_address in
      let digest_a = initial_signing_digest msg_a in
      let digest_b = initial_signing_digest msg_b in
      elim (sign_a digest_a) [
        | none ↦ (digest_a ∷ [], err signing_a_failed)
        | some sig_a ↦
            if not (length sig_a == 64)
            then (digest_a ∷ [], err (bad_signature_a (length sig_a)))
            else (
              digest_a ∷ digest_b ∷ [],
              elim (sign_b digest_b) [
                | none ↦ err signing_b_failed
                | some sig_b ↦
                    if not (length sig_b == 64)
                    then err (bad_signature_b (length sig_b))
                    else ok (record { signature_a = sig_a; signature_b = sig_b })
              ],
            )
      ]

  unfoldable pub sign_initial :
      (Bytes → Option Bytes) → (Bytes → Option Bytes) → Bytes → Bytes → InitialResult
  unfolding check_operator sign_messages
  sign_initial sign_a sign_b self_cosmos_addr operator_address =
      elim (check_operator self_cosmos_addr operator_address) [
        | err e ↦ ([], err e)
        | ok done ↦ sign_messages sign_a sign_b operator_address
      ]
