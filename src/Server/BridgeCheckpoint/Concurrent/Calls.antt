-- ===== src/Server/BridgeCheckpoint/Concurrent/Calls.antt =====
-- Every step of a call keeps the invariant.
use bridge_remote_signer.Base.Family.{update, update-elim}
use bridge_remote_signer.Base.{
  Bool, Bytes, List, Option, [], arith, inl, inr, none, ok, refl, some, subst, sym, ℕ, ◌<◌, ◌∷◌,
  ◌≡◌, ◌≢◌, ◌≤◌,
}
use bridge_remote_signer.Text.{u64_limit}
use bridge_remote_signer.Text.Laws.{AreBytes}
use bridge_remote_signer.Server.Crypto.{Crypto}
use bridge_remote_signer.Server.BridgeCheckpoint.{CheckpointRequest, verify_checkpoint}
use bridge_remote_signer.Server.BridgeCheckpoint.Calls.{verify_checkpoint_ok, checkpoint-length}
use bridge_remote_signer.Server.ReplayGuard.{
  JsonCodec, WriteStep, GuardError, replay_rejected, check_and_advance, CheckpointReplayGuard, Disk,
}
use bridge_remote_signer.Server.ReplayGuard.Laws.{IsJson}
use bridge_remote_signer.Server.ReplayGuard.History.{In, IsSafe, IsDescending, top, note_grant}
use bridge_remote_signer.Server.ReplayGuard.History.Advance.{check_and_advance-IsSafe}
use bridge_remote_signer.Server.BridgeCheckpoint.Concurrent.{
  Phase, idle, verified, refused, granted, signed, Asked, System, after_advance, do_advance,
}
use bridge_remote_signer.Server.BridgeCheckpoint.Concurrent.Invariant.{IsDescribed, IsAt, Inv}

In-le-top : (x : ℕ) (xs : List ℕ) → IsDescending xs → In x xs → x ≤ top xs
In-le-top x [] d h = absurd h
In-le-top x (y ∷ ys) d (inl e) = omega arith
In-le-top x (y ∷ ys) d (inr h) = omega (arith, In-le-top x ys d.1 h)

new_grant : (ts : ℕ) (xs : List ℕ) → IsDescending (ts ∷ xs) → In ts xs → ⊥
new_grant ts xs d h = absurd (omega (arith, In-le-top ts xs d.1 h))

module _ (c : Crypto) (self_evm_addr : Bytes) where
  IsAt_more :
      (xs xs' : List ℕ) (log : List Asked) (p : Phase)
      → ((ts : ℕ) → In ts xs → In ts xs')
      → IsAt c self_evm_addr xs log p
      → IsAt c self_evm_addr xs' log p
  IsAt_more xs xs' log idle more h = tt
  IsAt_more xs xs' log (verified ts checkpoint) more h = h
  IsAt_more xs xs' log (refused ts checkpoint) more h = h
  IsAt_more xs xs' log (granted ts checkpoint) more (d, g, fresh) = (d, more ts g, fresh)
  IsAt_more xs xs' log (signed ts checkpoint sig) more h = h

module _ (c : Crypto) (codec : JsonCodec) (json : IsJson codec) (self_evm_addr path : Bytes)
    {s : System} (inv : Inv c codec json self_evm_addr path s) (i : ℕ) where
  open inv use {safe, calls, once, given, covered, distinct, recorded, answered}

  abbrev pub IsHere : Phase → Type 0
  IsHere = IsAt c self_evm_addr s.world.granted s.asked

  pub once-update :
      (p : Phase)
      → ((j ts : ℕ) (a b : Bytes) → p ≡ granted ts a → s.phase j ≡ granted ts b → ⊥)
      → (j k ts : ℕ) (a b : Bytes) → update s.phase i p j ≡ granted ts a
      → update s.phase i p k ≡ granted ts b
      → j ≡ k
  once-update p alone j k ts a b q r =
      ground (arith, once j k ts a b, alone k ts a b, alone j ts b a)

  -- A step of call `i` that changes no log, and the guard at most.
  pub quiet-Inv :
      (g : CheckpointReplayGuard) (d : Disk) (p : Phase)
      → IsSafe codec json path (record s.world { guard = g; disk = d })
      → IsHere p
      → ((ts : ℕ) (a : Bytes) → p ≢ granted ts a)
      → Inv c codec json self_evm_addr path
          (record s { world = record s.world { guard = g; disk = d }; phase = update s.phase i p })
  quiet-Inv g d p safe' new other = record {
    safe = safe';
    calls = λ j. update-elim IsHere s.phase i p j new (λ apart. calls j);
    once = once-update p (λ j ts a b e f. other ts a e);
    given = given;
    covered = covered;
    distinct = distinct;
    recorded = recorded;
    answered = answered;
  }

  pub receive-Inv :
      (req : CheckpointRequest) (checkpoint : Bytes)
      → req.validator_timestamp < u64_limit
      → AreBytes req.expected_checkpoint
      → verify_checkpoint c self_evm_addr req ≡ ok checkpoint
      → Inv c codec json self_evm_addr path
          (record s { phase = update s.phase i (verified req.validator_timestamp checkpoint) })
  receive-Inv req checkpoint small bytes passed =
      let v = verify_checkpoint_ok c codec self_evm_addr req checkpoint passed in
      quiet-Inv s.world.guard s.world.disk (verified req.validator_timestamp checkpoint) safe
        (record {
          req = req;
          genuine = v;
          at = refl;
          small = small;
          bytes = subst AreBytes (sym v.expected) bytes;
          sized = checkpoint-length c codec self_evm_addr req checkpoint v;
        })
        (λ ts a e. cc)

  -- What a call of `CheckAndAdvance` makes of the state, by its answer.
  advanced-Inv :
      (ts : ℕ) (checkpoint : Bytes) (r : (CheckpointReplayGuard × Disk) × Option GuardError)
      → IsDescribed c self_evm_addr ts checkpoint
      → IsSafe codec json path (record s.world {
        guard = r.0.0;
        disk = r.0.1;
        granted = note_grant r.1 ts s.world.granted;
      })
      → Inv c codec json self_evm_addr path (record s {
        world = record s.world {
          guard = r.0.0;
          disk = r.0.1;
          granted = note_grant r.1 ts s.world.granted;
        };
        phase = update s.phase i (after_advance r.1 ts checkpoint);
      })
  advanced-Inv ts checkpoint ((g, d), none) described safe' =
      let new = new_grant ts s.world.granted safe'.descending in
      let grants = ts ∷ s.world.granted in
      record {
        safe = safe';
        calls = λ j.
            update-elim (IsAt c self_evm_addr grants s.asked) s.phase i _ j
              (described, inl refl, λ h. new (covered ts h))
              (λ apart.
                IsAt_more c self_evm_addr s.world.granted grants s.asked (s.phase j) (λ t h. inr h)
                  (calls j));
        once = once-update _ (λ j t a b e f.
            let same : t ≡ ts = cc in
            new (subst (λ x. In x s.world.granted) same (subst IsHere f (calls j)).1));
        given = given;
        covered = λ t h. inr (covered t h);
        distinct = distinct;
        recorded = recorded;
        answered = answered;
      }
  advanced-Inv ts checkpoint ((g, d), some (replay_rejected t mark)) described safe' =
      quiet-Inv g d (refused ts checkpoint) safe' described (λ t a e. cc)
  advanced-Inv ts checkpoint ((g, d), some e) described safe' =
      quiet-Inv g d idle safe' tt (λ t a e. cc)

  pub advance-Inv :
      (fails : WriteStep → Bool) (ts : ℕ) (checkpoint : Bytes)
      → s.phase i ≡ verified ts checkpoint
      → Inv c codec json self_evm_addr path (do_advance codec s i fails ts checkpoint)
  advance-Inv fails ts checkpoint at =
      let described : IsDescribed c self_evm_addr ts checkpoint = subst IsHere at (calls i) in
      advanced-Inv ts checkpoint (check_and_advance codec fails s.world.disk s.world.guard ts)
        described (check_and_advance-IsSafe codec json path s.world ts fails described.small safe)
