-- ===== src/Server/ReplayGuard/History/Memo.antt =====
-- A call of `RecordSignature` keeps the history safe.
use bridge_remote_signer.Server.ReplayGuard.History.{
  memoize, World, step, IsRecorded, IsWellFormed, Covers, IsSafe,
}
use bridge_remote_signer.Text.Laws.{AreBytes}
use bridge_remote_signer.Server.ReplayGuard.{
  CheckpointReplayGuard, JsonCodec, WriteStep, GuardError, Disk, record_signature, clone,
}
use bridge_remote_signer.Server.ReplayGuard.Laws.{IsJson, IsGuard}
use bridge_remote_signer.Server.ReplayGuard.Atomic.{Holds, persist_locked-Holds}
use bridge_remote_signer.Base.{
  Bool, Bytes, List, Option, [], ap, arith, inl, inr, length, none, ok, refl, some, suc, ℕ, ◌∷◌,
  ◌≡◌, ◌≢◌, ◌⊎◌,
}

module _ (codec : JsonCodec) (json : IsJson codec) (path : Bytes) where
  -- More records keep what was covered.
  Covers-cons :
      (granted : List ℕ) (log : List (ℕ × Bytes × Bytes)) (x : ℕ × Bytes × Bytes)
      (g : CheckpointReplayGuard)
      → Covers path granted log g
      → Covers path granted (x ∷ log) g
  Covers-cons granted log x g v = record {
    is_guard = v.is_guard;
    above = v.above;
    origin = more g.high_water g.signed_checkpoint g.signed_signature v.origin;
  }
    where
      more :
          (mark : ℕ) (ckpt sig : Option Bytes)
          → IsRecorded mark ckpt sig log
          → IsRecorded mark ckpt sig (x ∷ log)
      more mark none none h = tt
      more mark none (some b) h = tt
      more mark (some a) none h = tt
      more mark (some a) (some b) h = inr h

  memoized : CheckpointReplayGuard → Bytes → Bytes → CheckpointReplayGuard
  memoized g ckpt sig = record g { signed_checkpoint = some ckpt; signed_signature = some sig }

  clone-cons : (b : Bytes) (n : ℕ) → length b ≡ suc n → clone b ≡ some b
  clone-cons [] n e = absurd (omega arith)
  clone-cons (x ∷ b) n e = refl

  memoized-IsGuard :
      (g : CheckpointReplayGuard) (ckpt sig : Bytes)
      → (length ckpt ≡ 32) × (length sig ≡ 64) × AreBytes ckpt × AreBytes sig
      → IsGuard path g
      → IsGuard path (memoized g ckpt sig)
  unfolding memoized
  memoized-IsGuard g ckpt sig sized v = record {
    named = v.named;
    at_path = v.at_path;
    ready = v.ready;
    small = v.small;
    memo = sized;
  }

  abbrev Memoized :
      CheckpointReplayGuard
      → Disk
      → ℕ
      → Bytes
      → Bytes
      → (CheckpointReplayGuard × Disk) × Option GuardError
      → Type 0
  Memoized g disk ts ckpt sig r =
      ((r.0.0 ≡ g) × (r.0.1 ≡ disk))
      ⊎ ((g.high_water ≡ ts)
          × (r.0.0 ≡ memoized g ckpt sig)
          × (Holds codec json path r.0.1 (memoized g ckpt sig) ⊎ (r.0.1 ≡ disk)))

  record_signature-Memoized :
      (g : CheckpointReplayGuard) (disk : Disk) (ts : ℕ) (ckpt sig : Bytes)
      (fails : WriteStep → Bool)
      → (length ckpt ≡ 32) × (length sig ≡ 64) × AreBytes ckpt × AreBytes sig
      → IsGuard path g
      → Memoized g disk ts ckpt sig (record_signature codec fails disk g ts ckpt sig)
  unfolding record_signature memoized
  record_signature-Memoized g disk ts ckpt sig fails sized v =
      let persisted =
        persist_locked-Holds codec json path fails disk (memoized g ckpt sig)
          (memoized-IsGuard g ckpt sig sized v) in
      let named : path ≢ [] = v.named in
      let at : g.state_path ≡ path = v.at_path in
      rw (clone-cons ckpt 31 sized.0, clone-cons sig 63 sized.1, record_signature) (ground arith)

  memoized-Covers :
      (w : World) (ts : ℕ) (ckpt sig : Bytes)
      → (length ckpt ≡ 32) × (length sig ≡ 64) × AreBytes ckpt × AreBytes sig
      → IsSafe codec json path w
      → w.guard.high_water ≡ ts
      → Covers path w.granted ((ts, ckpt, sig) ∷ w.recorded) (memoized w.guard ckpt sig)
  unfolding memoized
  memoized-Covers w ts ckpt sig sized s at = record {
    is_guard = memoized-IsGuard w.guard ckpt sig sized s.running.is_guard;
    above = s.running.above;
    origin = inl (ap (λ (t : ℕ). (t, ckpt, sig)) at);
  }

  abbrev pub note : World → ℕ → Bytes → Bytes → CheckpointReplayGuard → Disk → World
  note w ts ckpt sig g d = record w { guard = g; disk = d; recorded = (ts, ckpt, sig) ∷ w.recorded }

  more-IsSafe :
      (w : World) (ts : ℕ) (ckpt sig : Bytes)
      → IsSafe codec json path w
      → IsSafe codec json path (note w ts ckpt sig w.guard w.disk)
  more-IsSafe w ts ckpt sig s = record {
    descending = s.descending;
    running = Covers-cons w.granted w.recorded _ w.guard s.running;
    stored = s.stored;
    loads = s.loads;
    covering = Covers-cons w.granted w.recorded _ s.stored s.covering;
  }

  note-IsSafe :
      (w : World) (ts : ℕ) (ckpt sig : Bytes) (g : CheckpointReplayGuard) (d : Disk)
      (e : Option GuardError)
      → (length ckpt ≡ 32) × (length sig ≡ 64) × AreBytes ckpt × AreBytes sig
      → IsSafe codec json path w
      → Memoized w.guard w.disk ts ckpt sig ((g, d), e)
      → IsSafe codec json path (note w ts ckpt sig g d)
  note-IsSafe w ts ckpt sig g d e sized s (inl (same, kept)) =
      rw (same, kept) (more-IsSafe w ts ckpt sig s)
  note-IsSafe w ts ckpt sig g d e sized s (inr (at, now, inl held)) =
      let covers = memoized-Covers w ts ckpt sig sized s at in
      rw now (record {
        descending = s.descending;
        running = covers;
        stored = memoized w.guard ckpt sig;
        loads = held;
        covering = covers;
      })
  note-IsSafe w ts ckpt sig g d e sized s (inr (at, now, inr kept)) =
      rw (now, kept)
        (record {
          descending = s.descending;
          running = memoized-Covers w ts ckpt sig sized s at;
          stored = s.stored;
          loads = s.loads;
          covering = Covers-cons w.granted w.recorded _ s.stored s.covering;
        })

  pub record_signature-IsSafe :
      (w : World) (ts : ℕ) (ckpt sig : Bytes) (fails : WriteStep → Bool)
      → IsWellFormed (memoize ts ckpt sig fails)
      → IsSafe codec json path w
      → let r = record_signature codec fails w.disk w.guard ts ckpt sig in
        IsSafe codec json path (note w ts ckpt sig r.0.0 r.0.1)
  record_signature-IsSafe w ts ckpt sig fails v s =
      let r = record_signature codec fails w.disk w.guard ts ckpt sig in
      note-IsSafe w ts ckpt sig r.0.0 r.0.1 r.1 v s
        (record_signature-Memoized w.guard w.disk ts ckpt sig fails v s.running.is_guard)

  pub record-IsSafe :
      (w : World) (ts : ℕ) (ckpt sig : Bytes) (fails : WriteStep → Bool)
      → IsWellFormed (memoize ts ckpt sig fails)
      → IsSafe codec json path w
      → (w' : World) × (step codec path w (memoize ts ckpt sig fails) ≡ ok w')
        × IsSafe codec json path w'
  unfolding step
  record-IsSafe w ts ckpt sig fails v s =
      let r = record_signature codec fails w.disk w.guard ts ckpt sig in
      (note w ts ckpt sig r.0.0 r.0.1, refl, record_signature-IsSafe w ts ckpt sig fails v s)
