-- ===== src/Server/Attestation/Laws.antt =====
-- An attestation is signed exactly when the request describes it.
use bridge_remote_signer.Server.Attestation.{
  verify_attestation, AttestationRequest, AttestationResult, encode_oracle_attestation,
  AttestationResponse,
}
use bridge_remote_signer.Server.Crypto.{Crypto}
use bridge_remote_signer.Base.{
  Bytes, Option, Option-cases, [], arith, inl, inr, length, ok, some, ◌↔◌, ◌∷◌, ◌≡◌, ◌≢◌, ◌≤◌, ◌⊎◌,
}

module _ (c : Crypto) where
  pub record IsAttestation (req : AttestationRequest) : Type 0 where
    pub some_query : 1 ≤ length req.query_id
    pub short_query : length req.query_id ≤ 32
    pub checkpoint_length : length req.valset_checkpoint ≡ 32
    pub snapshot_length : length req.expected_snapshot ≡ 32
    pub recomputed : encode_oracle_attestation c req ≡ some req.expected_snapshot

  pub verify_attestation_sound :
      (req : AttestationRequest) (snapshot : Bytes)
      → verify_attestation c req ≡ ok snapshot
      → IsAttestation req × (snapshot ≡ req.expected_snapshot)
  unfolding verify_attestation
  verify_attestation_sound req snapshot h = elim (Option-cases (encode_oracle_attestation c req)) [
    | inl e ↦ absurd (ground arith)
    | inr (s, e) ↦ (
      record {
        some_query = ground arith;
        short_query = ground arith;
        checkpoint_length = ground arith;
        snapshot_length = ground arith;
        recomputed = ground arith;
      },
      ground arith,
    )
  ]

  -- The backend's part: asked once for the hash, and its answer is passed on if it has 64 bytes.
  abbrev pub AttestationOutcome :
      (Bytes → Option Bytes) → AttestationRequest → AttestationResult → Type 0
  AttestationOutcome sign_raw req (asked, result) =
      ((¬ IsAttestation req) × (asked ≡ []) × ((res : AttestationResponse) → result ≢ ok res))
      ⊎ (IsAttestation req
          × (asked ≡ c.sha256 req.expected_snapshot ∷ [])
          × ((res : AttestationResponse)
              → (result ≡ ok res) ↔ (
                  (sign_raw (c.sha256 req.expected_snapshot) ≡ some res.signature)
                  × (length res.signature ≡ 64)
                  × (res.snapshot ≡ req.expected_snapshot))))
