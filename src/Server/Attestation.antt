-- ===== src/Server/Attestation.antt =====
-- server/attestation.go and `SignOracleAttestation` of server/server.go. The result comes with the
-- digests that the backend was given.
pub mod Laws
use bridge_remote_signer.Server.Checkpoint.{fixed32}
use bridge_remote_signer.Server.Crypto.{Crypto, bytes32, dynamic_bytes, uint256}
use bridge_remote_signer.Base.{
  Bytes, List, Option, Result, [], ascii, ensure, err, if◌then◌else◌, length, ltb, none, not, ok,
  some, ℕ, ◌==◌, ◌||◌, ◌∷◌, bytes_eq, nat_eq, ◌>>◌,
}

abbrev pub oracle_attestation_domain_separator : Bytes
oracle_attestation_domain_separator = ascii "tellorCurrentAttestation"

pub record AttestationRequest : Type 0 where
  pub query_id : Bytes
  pub value : Bytes
  pub timestamp : ℕ
  pub aggregate_power : ℕ
  pub previous_timestamp : ℕ
  pub next_timestamp : ℕ
  pub valset_checkpoint : Bytes
  pub attestation_timestamp : ℕ
  pub last_consensus_timestamp : ℕ
  pub expected_snapshot : Bytes

pub record AttestationResponse : Type 0 where
  pub signature : Bytes
  pub snapshot : Bytes

pub data AttestationError : Type 0 where
  bad_query_id bad_valset_checkpoint bad_expected_snapshot : ℕ → AttestationError
  encode_failed snapshot_mismatch attestation_signing_failed : AttestationError
  bad_attestation_signature : ℕ → AttestationError

abbrev pub AttestationResult : Type 0
AttestationResult = List Bytes × Result AttestationError AttestationResponse

module _ (c : Crypto) where
  unfoldable pub encode_oracle_attestation : AttestationRequest → Option Bytes
  encode_oracle_attestation req =
      elim (c.pack (
        bytes32 (fixed32 oracle_attestation_domain_separator)
        ∷ bytes32 (fixed32 req.query_id)
        ∷ dynamic_bytes req.value
        ∷ uint256 req.timestamp
        ∷ uint256 req.aggregate_power
        ∷ uint256 req.previous_timestamp
        ∷ uint256 req.next_timestamp
        ∷ bytes32 (fixed32 req.valset_checkpoint)
        ∷ uint256 req.attestation_timestamp
        ∷ uint256 req.last_consensus_timestamp
        ∷ [])) [ none ↦ none | some encoded ↦ some (c.keccak256 encoded) ]

  -- Steps 1 to 3: the recomputed snapshot.
  unfoldable pub verify_attestation : AttestationRequest → Result AttestationError Bytes
  verify_attestation req = do
    ensure (not (length req.query_id == 0 || ltb 32 (length req.query_id)))
        (bad_query_id (length req.query_id))
    ensure (length req.valset_checkpoint == 32)
        (bad_valset_checkpoint (length req.valset_checkpoint))
    ensure (length req.expected_snapshot == 32)
        (bad_expected_snapshot (length req.expected_snapshot))
    elim (encode_oracle_attestation req) [
      | none ↦ err encode_failed
      | some snapshot ↦ do ensure (snapshot == req.expected_snapshot) snapshot_mismatch; ok snapshot
    ]

  -- Step 4.
  pub sign_snapshot : (Bytes → Option Bytes) → Bytes → AttestationResult
  sign_snapshot sign_raw snapshot = (
    c.sha256 snapshot ∷ [],
    elim (sign_raw (c.sha256 snapshot)) [
      | none ↦ err attestation_signing_failed
      | some sig ↦
          if not (length sig == 64)
          then err (bad_attestation_signature (length sig))
          else ok (record { signature = sig; snapshot = snapshot })
    ],
  )

  unfoldable pub sign_oracle_attestation :
      (Bytes → Option Bytes) → AttestationRequest → AttestationResult
  unfolding sign_snapshot
  sign_oracle_attestation sign_raw req = elim (verify_attestation req) [
    | err e ↦ ([], err e)
    | ok snapshot ↦ sign_snapshot sign_raw snapshot
  ]
