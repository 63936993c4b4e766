-- ===== src/Server/BridgeCheckpoint/Concurrent/Invariant.antt =====
-- What holds in every state of the concurrent calls.
use bridge_remote_signer.Base.{Bytes, List, [], length, some, ℕ, ◌<◌, ◌∷◌, ◌≡◌}
use bridge_remote_signer.Text.{u64_limit}
use bridge_remote_signer.Text.Laws.{AreBytes}
use bridge_remote_signer.Server.Crypto.{Crypto}
use bridge_remote_signer.Server.BridgeCheckpoint.{CheckpointRequest}
use bridge_remote_signer.Server.BridgeCheckpoint.Verify.{IsGenuine}
use bridge_remote_signer.Server.ReplayGuard.{JsonCodec}
use bridge_remote_signer.Server.ReplayGuard.Laws.{IsJson}
use bridge_remote_signer.Server.ReplayGuard.History.{In, IsSafe}
use bridge_remote_signer.Server.BridgeCheckpoint.Concurrent.{
  Phase, idle, verified, refused, granted, signed, Asked, Answer, System,
}

abbrev pub timestamps : List Asked → List ℕ
timestamps [] = []
timestamps (a ∷ log) = a.timestamp ∷ timestamps log

abbrev pub AreDistinct : List ℕ → Type 0
AreDistinct [] = Unit
AreDistinct (x ∷ xs) = (In x xs → ⊥) × AreDistinct xs

module _ (c : Crypto) (self_evm_addr : Bytes) where
  -- A checkpoint that a request genuinely described for its timestamp.
  pub record IsDescribed (ts : ℕ) (checkpoint : Bytes) : Type 0 where
    pub req : CheckpointRequest
    pub genuine : IsGenuine c self_evm_addr req checkpoint
    pub at : req.validator_timestamp ≡ ts
    pub small : ts < u64_limit
    pub bytes : AreBytes checkpoint
    pub sized : length checkpoint ≡ 32

  -- An entry of the log for this checkpoint and signature.
  abbrev pub entry : ℕ → Bytes → Bytes → Asked
  entry ts checkpoint sig = record {
    timestamp = ts;
    digest = c.sha256 checkpoint;
    reply = some sig;
  }

  -- What is known of a call at each phase, by the grants and the log.
  abbrev pub IsAt : List ℕ → List Asked → Phase → Type 0
  IsAt grants log idle = Unit
  IsAt grants log (verified ts checkpoint) = IsDescribed ts checkpoint
  IsAt grants log (refused ts checkpoint) = IsDescribed ts checkpoint
  IsAt grants log (granted ts checkpoint) =
      IsDescribed ts checkpoint × In ts grants × (In ts (timestamps log) → ⊥)
  IsAt grants log (signed ts checkpoint sig) =
      IsDescribed ts checkpoint
      × (length sig ≡ 64)
      × AreBytes sig
      × In (entry ts checkpoint sig) log

  abbrev pub IsAsked : Asked → Type 0
  IsAsked a =
      (checkpoint : Bytes) × IsDescribed a.timestamp checkpoint × (a.digest ≡ c.sha256 checkpoint)

  -- The answer's checkpoint is the one described, and the backend made its signature.
  abbrev pub IsMade : List Asked → ℕ → Bytes → Bytes → Type 0
  IsMade log ts checkpoint sig =
      IsDescribed ts checkpoint × (length sig ≡ 64) × In (entry ts checkpoint sig) log

module _ (c : Crypto) (codec : JsonCodec) (json : IsJson codec) (self_evm_addr path : Bytes) where
  pub record Inv (s : System) : Type 0 where
    pub safe : IsSafe codec json path s.world
    pub calls : (i : ℕ) → IsAt c self_evm_addr s.world.granted s.asked (s.phase i)
    pub once :
        (i j ts : ℕ) (a b : Bytes) → s.phase i ≡ granted ts a → s.phase j ≡ granted ts b → i ≡ j
    pub given : (a : Asked) → In a s.asked → IsAsked c self_evm_addr a
    pub covered : (ts : ℕ) → In ts (timestamps s.asked) → In ts s.world.granted
    pub distinct : AreDistinct (timestamps s.asked)
    pub recorded :
        (ts : ℕ) (checkpoint sig : Bytes)
        → In (ts, checkpoint, sig) s.world.recorded
        → IsMade c self_evm_addr s.asked ts checkpoint sig
    pub answered :
        (a : Answer)
        → In a s.answers
        → IsMade c self_evm_addr s.asked a.timestamp a.checkpoint a.signature
