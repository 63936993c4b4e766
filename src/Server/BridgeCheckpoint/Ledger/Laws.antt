-- ===== src/Server/BridgeCheckpoint/Ledger/Laws.antt =====
-- Timestamps and digests that the backend is given over a run of calls in server/server.go.
use bridge_remote_signer.Base.{
  All, Bool-cases, Bytes, List, Option, Option-cases, Result-cases, [], ap, arith, inl, inr, length,
  none, ok, refl, some, subst, sym, ℕ, ◌==◌, ◌∷◌, ◌≡◌, ◌≢◌, bytes_eq, nat_eq,
}
use bridge_remote_signer.Text.Laws.{AreBytes}
use bridge_remote_signer.Server.Crypto.{Crypto}
use bridge_remote_signer.Server.BridgeCheckpoint.{
  CheckpointRequest, Surroundings, sign_bridge_checkpoint, ServerState, guard_and_sign, after_guard,
  sign_verified, verify_checkpoint,
}
use bridge_remote_signer.Server.BridgeCheckpoint.Verify.{IsGenuine}
use bridge_remote_signer.Server.BridgeCheckpoint.Calls.{verify_checkpoint_ok, checkpoint-length}
use bridge_remote_signer.Server.ReplayGuard.{
  JsonCodec, GuardError, CheckpointReplayGuard, Disk, check_and_advance,
}
use bridge_remote_signer.Server.ReplayGuard.Laws.{IsJson}
use bridge_remote_signer.Server.ReplayGuard.History.{World, note_grant, IsSafe, IsDescending, start}
use bridge_remote_signer.Server.ReplayGuard.History.Advance.{check_and_advance-IsSafe, after}
use bridge_remote_signer.Server.ReplayGuard.History.Memo.{record_signature-IsSafe}
use bridge_remote_signer.Server.ReplayGuard.History.Runs.{start-IsSafe}
use bridge_remote_signer.Server.BridgeCheckpoint.Ledger.{
  Call, checkpoint_call, reboot, Ledger, timestamps, digests, first_state, serve_call, serve_calls,
  IsProper, IsGranted,
}

module _ (c : Crypto) (codec : JsonCodec) (json : IsJson codec) (self_evm_addr path : Bytes) where
  abbrev beside : ServerState → List ℕ → List (ℕ × Bytes × Bytes) → World
  beside st granted log = record {
    guard = st.guard;
    disk = st.disk;
    granted = granted;
    recorded = log;
  }

  -- The ledger beside the guard's own history.
  record Matches (st : ServerState) : Type 0 where
    ledger : Ledger
    log : List (ℕ × Bytes × Bytes)
    given : digests ledger ≡ st.asked
    entries : All (IsGranted c self_evm_addr) ledger
    safe : IsSafe codec json path (beside st (timestamps ledger) log)

  sign_verified-Matches :
      (env : Surroundings) (st : ServerState) (req : CheckpointRequest) (checkpoint : Bytes)
      (ledger : Ledger) (log : List (ℕ × Bytes × Bytes))
      → IsProper c self_evm_addr (checkpoint_call env req)
      → IsGenuine c self_evm_addr req checkpoint
      → AreBytes checkpoint
      → digests ledger ≡ st.asked
      → All (IsGranted c self_evm_addr) ledger
      → IsSafe codec json path (beside st (req.validator_timestamp ∷ timestamps ledger) log)
      → Matches (sign_verified c codec env st req.validator_timestamp checkpoint).0
  unfolding sign_verified
  sign_verified-Matches env st req checkpoint ledger log proper v bytes given entries safe =
      let digest = c.sha256 checkpoint in
      let ts = req.validator_timestamp in
      let entry : IsGranted c self_evm_addr (ts, digest) = record {
        req = req;
        checkpoint = checkpoint;
        genuine = v;
        at = refl;
        hash = refl;
      } in
      let asked : digests ((ts, digest) ∷ ledger) ≡ digest ∷ st.asked =
        ap (λ (l : List Bytes). digest ∷ l) given in
      elim (Option-cases (env.sign_raw digest)) [
        | inl refused ↦
            rw (refused, sign_verified)
              (record {
                ledger = (ts, digest) ∷ ledger;
                log = log;
                given = asked;
                entries = (entry, entries);
                safe = safe;
              })
        | inr (sig, made) ↦ elim (Bool-cases (length sig == 64)) [
          | inl sized ↦
              rw (made, sized, sign_verified)
                (record {
                  ledger = (ts, digest) ∷ ledger;
                  log = (ts, checkpoint, sig) ∷ log;
                  given = asked;
                  entries = (entry, entries);
                  safe =
                      record_signature-IsSafe codec json path
                        (beside st (ts ∷ timestamps ledger) log) ts checkpoint sig env.record_fails
                        (
                          checkpoint-length c codec self_evm_addr req checkpoint v,
                          ground arith,
                          bytes,
                          proper.2 digest sig made,
                        )
                        safe;
                })
          | inr short ↦
              rw (made, short, sign_verified)
                (record {
                  ledger = (ts, digest) ∷ ledger;
                  log = log;
                  given = asked;
                  entries = (entry, entries);
                  safe = safe;
                })
        ]
      ]

  after_guard-Matches :
      (env : Surroundings) (st : ServerState) (req : CheckpointRequest) (checkpoint : Bytes)
      (ledger : Ledger) (log : List (ℕ × Bytes × Bytes))
      (r : (CheckpointReplayGuard × Disk) × Option GuardError)
      → IsProper c self_evm_addr (checkpoint_call env req)
      → IsGenuine c self_evm_addr req checkpoint
      → digests ledger ≡ st.asked
      → All (IsGranted c self_evm_addr) ledger
      → IsSafe codec json path (
          after codec json path
            (beside st (timestamps ledger) log)
            r.0.0
            r.0.1
            (note_grant r.1 req.validator_timestamp (timestamps ledger)))
      → Matches (after_guard c codec env st req.validator_timestamp checkpoint r).0
  unfolding after_guard
  after_guard-Matches env st req checkpoint ledger log ((g, d), some e) proper v given entries
        safe =
      record { ledger = ledger; log = log; given = given; entries = entries; safe = safe }
  after_guard-Matches env st req checkpoint ledger log ((g, d), none) proper v given entries safe =
      sign_verified-Matches env (record st { guard = g; disk = d }) req checkpoint ledger log proper
        v (subst AreBytes (sym v.expected) proper.1) given entries safe

  request-Matches :
      (env : Surroundings) (st : ServerState) (req : CheckpointRequest)
      → IsProper c self_evm_addr (checkpoint_call env req)
      → Matches st
      → Matches (sign_bridge_checkpoint c codec self_evm_addr env st req).0
  unfolding sign_bridge_checkpoint guard_and_sign
  request-Matches env st req proper m =
      elim (Result-cases (verify_checkpoint c self_evm_addr req)) [
        | inl (e, refused) ↦ rw (refused, sign_bridge_checkpoint) m
        | inr (checkpoint, passed) ↦
            let v = verify_checkpoint_ok c codec self_evm_addr req checkpoint passed in
            rw (passed, sign_bridge_checkpoint)
              (after_guard-Matches env st req checkpoint m.ledger m.log
                (check_and_advance codec env.advance_fails st.disk st.guard req.validator_timestamp)
                proper v m.given m.entries
                (check_and_advance-IsSafe codec json path (beside st (timestamps m.ledger) m.log)
                  req.validator_timestamp env.advance_fails proper.0 m.safe))
      ]

  reboot-Matches :
      (st : ServerState)
      → Matches st
      → (st' : ServerState) × (serve_call c codec self_evm_addr path st reboot ≡ ok st')
        × Matches st'
  unfolding serve_call
  reboot-Matches st m =
      let s = m.safe in
      (
        record st { guard = s.stored },
        rw (s.loads, serve_call),
        record {
          ledger = m.ledger;
          log = m.log;
          given = m.given;
          entries = m.entries;
          safe = record {
            descending = s.descending;
            running = s.covering;
            stored = s.stored;
            loads = s.loads;
            covering = s.covering;
          };
        },
      )

  serve_call-Matches :
      (st : ServerState) (call : Call)
      → IsProper c self_evm_addr call
      → Matches st
      → (st' : ServerState) × (serve_call c codec self_evm_addr path st call ≡ ok st') × Matches st'
  unfolding serve_call
  serve_call-Matches st (checkpoint_call env req) proper m =
      (_, refl, request-Matches env st req proper m)
  serve_call-Matches st reboot proper m = reboot-Matches st m

  serve_calls-Matches :
      (st : ServerState) (calls : List Call)
      → All (IsProper c self_evm_addr) calls
      → Matches st
      → (st' : ServerState) × (serve_calls c codec self_evm_addr path st calls ≡ ok st')
        × Matches st'
  unfolding serve_calls
  serve_calls-Matches st [] proper m = (st, refl, m)
  serve_calls-Matches st (call ∷ calls) proper m =
      let (st', served, m') = serve_call-Matches st call proper.0 m in
      let (st'', ran, m'') = serve_calls-Matches st' calls proper.1 m' in
      (st'', rw (served, serve_calls) ran, m'')

  first_state-Matches : path ≢ [] → Matches (first_state path)
  unfolding first_state start
  first_state-Matches named = record {
    ledger = [];
    log = [];
    given = refl;
    entries = tt;
    safe = start-IsSafe codec json path named;
  }

  -- Whatever requests the server serves, one after the other, whichever file writes and backend
  -- calls fail, and whenever it restarts: every restart reads the guard's file, and the digests
  -- given to the backend are each the hash of a checkpoint that a request genuinely described, for
  -- timestamps that ascend strictly, so that no timestamp is signed for twice.
  pub serve_calls-IsDescending :
      (calls : List Call)
      → path ≢ []
      → All (IsProper c self_evm_addr) calls
      → (st : ServerState) × (serve_calls c codec self_evm_addr path (first_state path) calls
          ≡ ok st)
        × ((ledger : Ledger) × (digests ledger ≡ st.asked)
            × IsDescending (timestamps ledger)
            × All (IsGranted c self_evm_addr) ledger)
  serve_calls-IsDescending calls named proper =
      let (st, served, m) =
        serve_calls-Matches (first_state path) calls proper (first_state-Matches named) in
      (st, served, (m.ledger, m.given, m.safe.descending, m.entries))
