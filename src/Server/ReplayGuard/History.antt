-- ===== src/Server/ReplayGuard/History.antt =====
-- Any history of the guard: requests of several connections in any interleaving (each call holds
-- the mutex, so it is one step), write failures, and restarts, which read the file again.
pub mod Advance
pub mod Memo
pub mod Runs
use bridge_remote_signer.Text.{u64_limit}
use bridge_remote_signer.Text.Laws.{AreBytes}
use bridge_remote_signer.Server.ReplayGuard.{
  fresh_guard, CheckpointReplayGuard, JsonCodec, WriteStep, GuardError, new_checkpoint_replay_guard,
  Disk, record_signature, check_and_advance, advanced, persist_locked, cached_signature, clone,
  not_exist, fresh_guard,
}
use bridge_remote_signer.Server.ReplayGuard.Laws.{IsJson, IsGuard, IsMemo}
use bridge_remote_signer.Server.ReplayGuard.Atomic.{read, Holds, persist_locked-Holds}
use bridge_remote_signer.Base.{
  Bool, Bytes, List, Option, Result, [], err, length, none, ok, some, ℕ, ◌<◌, ◌∷◌, ◌≡◌, ◌≤◌, ◌⊎◌,
}

pub data Event : Type 0 where
  advance : ℕ → (WriteStep → Bool) → Event
  memoize : ℕ → Bytes → Bytes → (WriteStep → Bool) → Event
  restart : Event

-- The guard and its file, with the timestamps granted and the signatures recorded so far, newest
-- first.
pub record World : Type 0 where
  pub guard : CheckpointReplayGuard
  pub disk : Disk
  pub granted : List ℕ
  pub recorded : List (ℕ × Bytes × Bytes)

abbrev pub note_grant : Option GuardError → ℕ → List ℕ → List ℕ
note_grant none ts granted = ts ∷ granted
note_grant (some e) ts granted = granted

module _ (codec : JsonCodec) (path : Bytes) where
  unfoldable pub step : World → Event → Result GuardError World
  step w (advance ts fails) =
      let ((g, d), e) = check_and_advance codec fails w.disk w.guard ts in
      ok (record w { guard = g; disk = d; granted = note_grant e ts w.granted })
  step w (memoize ts ckpt sig fails) =
      let ((g, d), e) = record_signature codec fails w.disk w.guard ts ckpt sig in
      ok (record w { guard = g; disk = d; recorded = (ts, ckpt, sig) ∷ w.recorded })
  step w restart = elim (new_checkpoint_replay_guard codec path (read w.disk)) [
    | err e ↦ err e
    | ok g ↦ ok (record w { guard = g })
  ]

  unfoldable pub run : World → List Event → Result GuardError World
  run w [] = ok w
  run w (e ∷ es) = elim (step w e) [ err x ↦ err x | ok w' ↦ run w' es ]

abbrev pub top : List ℕ → ℕ
top [] = 0
top (x ∷ xs) = x

abbrev pub IsDescending : List ℕ → Type 0
IsDescending [] = Unit
IsDescending (x ∷ xs) = (top xs < x) × IsDescending xs

abbrev pub In : {A : Type 0} → A → List A → Type 0
In x [] = ⊥
In x (y ∷ ys) = (x ≡ y) ⊎ In x ys

-- The memo, if there is one, was recorded at the mark.
abbrev pub IsRecorded : ℕ → Option Bytes → Option Bytes → List (ℕ × Bytes × Bytes) → Type 0
IsRecorded mark (some ckpt) (some sig) log = In (mark, ckpt, sig) log
IsRecorded mark _ _ log = Unit

-- Requests as the server makes them: 64-bit timestamps, checkpoints of 32 bytes, signatures of 64.
abbrev pub IsWellFormed : Event → Type 0
IsWellFormed (advance ts fails) = ts < u64_limit
IsWellFormed (memoize ts ckpt sig fails) =
    (length ckpt ≡ 32) × (length sig ≡ 64) × AreBytes ckpt × AreBytes sig
IsWellFormed restart = Unit

module _ (path : Bytes) where
  -- A guard that is started with no file.
  unfoldable pub start : World
  unfolding fresh_guard
  start = record { guard = fresh_guard path 0; disk = none; granted = []; recorded = [] }

  -- A guard that is ready, above all that was granted, and whose memo is one that was recorded.
  pub record Covers (granted : List ℕ) (log : List (ℕ × Bytes × Bytes)) (g : CheckpointReplayGuard)
      : Type 0 where
    pub is_guard : IsGuard path g
    pub above : top granted ≤ g.high_water
    pub origin : IsRecorded g.high_water g.signed_checkpoint g.signed_signature log

module _ (codec : JsonCodec) (json : IsJson codec) (path : Bytes) where
  -- The guard covers the history, and so does the one that a restart would load.
  pub record IsSafe (w : World) : Type 0 where
    pub descending : IsDescending w.granted
    pub running : Covers path w.granted w.recorded w.guard
    pub stored : CheckpointReplayGuard
    pub loads : Holds codec json path w.disk stored
    pub covering : Covers path w.granted w.recorded stored
