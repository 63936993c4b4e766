-- ===== src/Signer/Contract.antt =====
-- What signer/signer.go and its comments promise of every backend.
use bridge_remote_signer.Base.{Bytes, err, length, ok, ℕ, ◌≡◌, ◌≢◌, ◌≤◌}
use bridge_remote_signer.Signer.SigUtils.{Curve}
use bridge_remote_signer.Signer.SigUtils.Laws.{Recovers}
use bridge_remote_signer.Signer.SigUtils.Shape.{IsEthForm}
use bridge_remote_signer.Signer.Types.{Signer, wrong_length}

-- The signatures are the key's own: `Sign` over the sha256 of the message, with its v, and `SignRaw`
-- over the message itself, without it. Only messages of 32 bytes are signed.
pub record IsBackend (c : Curve) (sha256 : Bytes → Bytes) (key : Bytes) (s : Signer) : Type 0 where
  pub key_served : s.get_public_key ≡ ok key
  pub sign_refuses : (msg : Bytes) → length msg ≢ 32 → s.sign msg ≡ err (wrong_length (length msg))
  pub sign_raw_refuses :
      (msg : Bytes) → length msg ≢ 32 → s.sign_raw msg ≡ err (wrong_length (length msg))
  pub sign_answers : (msg sig : Bytes) → s.sign msg ≡ ok sig → IsEthForm c (sha256 msg) key sig
  pub sign_raw_answers :
      (msg sig : Bytes)
      → s.sign_raw msg ≡ ok sig
      → (length sig ≡ 64) × (v : ℕ) × (v ≤ 1) × Recovers c msg key sig v
