-- ===== src/Server/BridgeCheckpoint/Concurrent/Signing.antt =====
-- The look into the memo, the backend's call and the memo's record keep the invariant.
use bridge_remote_signer.Base.Family.{update-elim}
use bridge_remote_signer.Base.{
  Bool, Bool-cases, Bytes, List, Option, ap, arith, inl, inr, length, none, ok, refl, some, subst,
  sym, ℕ, ◌==◌, ◌∙◌, ◌∷◌, ◌≡◌, ◌≢◌, bytes_eq, nat_eq,
}
use bridge_remote_signer.Text.Laws.{AreBytes}
use bridge_remote_signer.Server.Crypto.{Crypto}
use bridge_remote_signer.Server.ReplayGuard.{
  JsonCodec, WriteStep, CheckpointReplayGuard, new_checkpoint_replay_guard, cached_signature,
}
use bridge_remote_signer.Server.ReplayGuard.Atomic.{read}
use bridge_remote_signer.Server.ReplayGuard.Laws.{IsJson}
use bridge_remote_signer.Server.ReplayGuard.History.{In, IsRecorded}
use bridge_remote_signer.Server.ReplayGuard.History.Memo.{record_signature-IsSafe}
use bridge_remote_signer.Server.BridgeCheckpoint.Concurrent.{
  Phase, idle, verified, refused, granted, signed, Asked, Answer, System, after_sign, after_lookup,
  do_lookup, do_sign, do_record, do_reboot,
}
use bridge_remote_signer.Server.BridgeCheckpoint.Concurrent.Invariant.{
  IsDescribed, IsAt, IsAsked, IsMade, Inv,
}
use bridge_remote_signer.Server.BridgeCheckpoint.Concurrent.Calls.{once-update, IsHere}

module _ (c : Crypto) (self_evm_addr : Bytes) where
  -- A longer log, whose new entry is for another timestamp.
  IsAt_asked :
      (xs : List ℕ) (log : List Asked) (p : Phase) (a : Asked)
      → ((ts : ℕ) (checkpoint : Bytes) → p ≡ granted ts checkpoint → ts ≢ a.timestamp)
      → IsAt c self_evm_addr xs log p
      → IsAt c self_evm_addr xs (a ∷ log) p
  IsAt_asked xs log idle a other h = tt
  IsAt_asked xs log (verified ts checkpoint) a other h = h
  IsAt_asked xs log (refused ts checkpoint) a other h = h
  IsAt_asked xs log (granted ts checkpoint) a other (d, g, fresh) =
      (d, g, λ h. elim h [ inl e ↦ other ts checkpoint refl e | inr h' ↦ fresh h' ])
  IsAt_asked xs log (signed ts checkpoint sig) a other (d, size, bytes, made) =
      (d, size, bytes, inr made)

  IsMade_asked :
      (log : List Asked) (a : Asked) (ts : ℕ) (checkpoint sig : Bytes)
      → IsMade c self_evm_addr log ts checkpoint sig
      → IsMade c self_evm_addr (a ∷ log) ts checkpoint sig
  IsMade_asked log a ts checkpoint sig (d, size, made) = (d, size, inr made)

cached_signature_inv :
    (g : CheckpointReplayGuard) (ts : ℕ) (checkpoint sig : Bytes)
    → cached_signature g ts checkpoint ≡ some sig
    → (g.high_water ≡ ts)
      × (g.signed_checkpoint ≡ some checkpoint)
      × (g.signed_signature ≡ some sig)
unfolding cached_signature
cached_signature_inv g ts checkpoint sig h = ground arith

recalled :
    (mark : ℕ) (a b : Option Bytes) (log : List (ℕ × Bytes × Bytes)) (ts : ℕ)
    (checkpoint sig : Bytes)
    → mark ≡ ts
    → a ≡ some checkpoint
    → b ≡ some sig
    → IsRecorded mark a b log
    → In (ts, checkpoint, sig) log
recalled mark none b log ts checkpoint sig e f g h = absurd (cc)
recalled mark (some a) none log ts checkpoint sig e f g h = absurd (cc)
recalled mark (some a) (some b) log ts checkpoint sig e f g h =
    let same : ◌≡◌ {A = ℕ × Bytes × Bytes} (mark, a, b) (ts, checkpoint, sig) = ground arith in
    subst (λ (x : ℕ × Bytes × Bytes). In x log) same h

module _ (c : Crypto) (codec : JsonCodec) (json : IsJson codec) (self_evm_addr path : Bytes)
    {s : System} (inv : Inv c codec json self_evm_addr path s) (i : ℕ) where
  open inv use {safe, calls, once, given, covered, distinct, recorded, answered}

  -- The memo, if it answers, was made by the backend.
  cached-IsMade :
      (ts : ℕ) (checkpoint sig : Bytes)
      → cached_signature s.world.guard ts checkpoint ≡ some sig
      → IsMade c self_evm_addr s.asked ts checkpoint sig
  cached-IsMade ts checkpoint sig found =
      let (at, ck, sg) = cached_signature_inv s.world.guard ts checkpoint sig found in
      recorded ts checkpoint sig
        (recalled _ _ _ s.world.recorded ts checkpoint sig at ck sg safe.running.origin)

  looked_up :
      (ts : ℕ) (checkpoint : Bytes) (o : Option Bytes)
      → ((sig : Bytes) → o ≡ some sig → IsMade c self_evm_addr s.asked ts checkpoint sig)
      → (a : Answer) → In a (after_lookup o ts checkpoint s.answers)
      → IsMade c self_evm_addr s.asked a.timestamp a.checkpoint a.signature
  looked_up ts checkpoint none made a h = answered a h
  looked_up ts checkpoint (some sig) made a (inl e) = rw e (made sig refl)
  looked_up ts checkpoint (some sig) made a (inr h) = answered a h

  pub look_up-Inv :
      (ts : ℕ) (checkpoint : Bytes)
      → Inv c codec json self_evm_addr path (do_lookup s i ts checkpoint)
  look_up-Inv ts checkpoint = record {
    safe = safe;
    calls = λ j.
        update-elim (IsHere c codec json self_evm_addr path inv i) s.phase i idle j tt
          (λ apart. calls j);
    once = once-update c codec json self_evm_addr path inv i idle (λ j t a b e f. cc);
    given = given;
    covered = covered;
    distinct = distinct;
    recorded = recorded;
    answered =
        looked_up ts checkpoint (cached_signature s.world.guard ts checkpoint)
          (cached-IsMade ts checkpoint);
  }

  after_sign-granted :
      (reply : Option Bytes) (ts t : ℕ) (checkpoint a : Bytes)
      → after_sign reply ts checkpoint ≢ granted t a
  after_sign-granted none ts t checkpoint a e = cc
  after_sign-granted (some sig) ts t checkpoint a e = ground arith

  after_sign-IsAt :
      (reply : Option Bytes) (ts : ℕ) (checkpoint : Bytes)
      → IsDescribed c self_evm_addr ts checkpoint
      → ((sig : Bytes) → reply ≡ some sig → AreBytes sig)
      → IsAt c self_evm_addr s.world.granted
          (record { timestamp = ts; digest = c.sha256 checkpoint; reply = reply } ∷ s.asked)
          (after_sign reply ts checkpoint)
  after_sign-IsAt none ts checkpoint d bytes = tt
  after_sign-IsAt (some sig) ts checkpoint d bytes = elim (Bool-cases (length sig == 64)) [
    | inl sized ↦ rw sized (d, ground arith, bytes sig refl, inl refl)
    | inr short ↦ rw short tt
  ]

  pub sign-Inv :
      (reply : Option Bytes) (ts : ℕ) (checkpoint : Bytes)
      → s.phase i ≡ granted ts checkpoint
      → ((sig : Bytes) → reply ≡ some sig → AreBytes sig)
      → Inv c codec json self_evm_addr path (do_sign c s i reply ts checkpoint)
  sign-Inv reply ts checkpoint at bytes =
      let (d, held, fresh) = subst (IsHere c codec json self_evm_addr path inv i) at (calls i) in
      let new : Asked = record { timestamp = ts; digest = c.sha256 checkpoint; reply = reply } in
      record {
        safe = safe;
        calls = λ j.
            update-elim (IsAt c self_evm_addr s.world.granted (new ∷ s.asked)) s.phase i _ j
              (after_sign-IsAt reply ts checkpoint d bytes)
              (λ apart.
                IsAt_asked c self_evm_addr s.world.granted s.asked (s.phase j) new
                  (λ t a e same.
                    apart (once i j ts checkpoint a at (e ∙ ap (λ (x : ℕ). granted x a) same)))
                  (calls j));
        once =
            once-update c codec json self_evm_addr path inv i _
              (λ j t a b e f. after_sign-granted reply ts t checkpoint a e);
        given = λ a h. elim h [
          | inl e ↦ subst (IsAsked c self_evm_addr) (sym e) (checkpoint, d, refl)
          | inr h' ↦ given a h'
        ];
        covered = λ t h. elim h [
          | inl e ↦ subst (λ x. In x s.world.granted) (sym e) held
          | inr h' ↦ covered t h'
        ];
        distinct = (fresh, distinct);
        recorded =
            λ t ck sig h. IsMade_asked c self_evm_addr s.asked new t ck sig (recorded t ck sig h);
        answered = λ a h.
            IsMade_asked c self_evm_addr s.asked new a.timestamp a.checkpoint a.signature
              (answered a h);
      }

  pub memoize-Inv :
      (fails : WriteStep → Bool) (ts : ℕ) (checkpoint sig : Bytes)
      → s.phase i ≡ signed ts checkpoint sig
      → Inv c codec json self_evm_addr path (do_record codec s i fails ts checkpoint sig)
  memoize-Inv fails ts checkpoint sig at =
      let (d, size, bytes, made) =
        subst (IsHere c codec json self_evm_addr path inv i) at (calls i) in
      record {
        safe =
            record_signature-IsSafe codec json path s.world ts checkpoint sig fails
              (d.sized, size, d.bytes, bytes) safe;
        calls = λ j.
            update-elim (IsHere c codec json self_evm_addr path inv i) s.phase i idle j tt
              (λ apart. calls j);
        once = once-update c codec json self_evm_addr path inv i idle (λ j t a b e f. cc);
        given = given;
        covered = covered;
        distinct = distinct;
        recorded = λ t ck sg h. elim h [
          | inl e ↦
              subst (λ (x : ℕ × Bytes × Bytes). IsMade c self_evm_addr s.asked x.0 x.1 x.2) (sym e)
                (d, size, made)
          | inr h' ↦ recorded t ck sg h'
        ];
        answered = λ a h. elim h [ inl e ↦ rw e (d, size, made) | inr h' ↦ answered a h' ];
      }

module _ (c : Crypto) (codec : JsonCodec) (json : IsJson codec) (self_evm_addr path : Bytes)
    {s : System} (inv : Inv c codec json self_evm_addr path s) where
  open inv use {safe, given, covered, distinct, recorded, answered}

  pub reboot-Inv :
      (g : CheckpointReplayGuard)
      → new_checkpoint_replay_guard codec path (read s.world.disk) ≡ ok g
      → Inv c codec json self_evm_addr path (do_reboot s g)
  reboot-Inv g loaded =
      let same : safe.stored ≡ g = cc (safe.loads, loaded) in
      rw (sym same) (record {
        safe = record {
          descending = safe.descending;
          running = safe.covering;
          stored = safe.stored;
          loads = safe.loads;
          covering = safe.covering;
        };
        calls = λ j. tt;
        once = λ j k ts a b e f. cc;
        given = given;
        covered = covered;
        distinct = distinct;
        recorded = recorded;
        answered = answered;
      })
