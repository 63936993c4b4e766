-- ===== src/Server/ReplayGuard.antt =====
-- server/replay_guard.go: the monotonic guard on the checkpoints' validator timestamps, with its
-- memo of the last signature. A nil slice is `none`. The disk is the content of the guard's file.
-- `encoding/json` is a parameter.
pub mod Laws
pub mod Atomic
pub mod History
pub mod Tests
use bridge_remote_signer.Net.{has_prefix}
use bridge_remote_signer.Text.{hex_encode, hex_decode, parse_uint, trim_space}
use bridge_remote_signer.Base.{
  Bool, Bytes, Option, Result, [], ascii, err, if◌then◌else◌, leb, length, none, not, ok, some,
  true, ℕ, ◌&&◌, ◌==◌, ◌||◌, ◌∷◌, bytes_eq, nat_eq,
}

pub record CheckpointReplayGuard : Type 0 where
  pub state_path : Bytes
  pub high_water : ℕ
  pub loaded : Bool
  pub signed_checkpoint : Option Bytes
  pub signed_signature : Option Bytes

-- The file's JSON object; the two strings are hex, and empty ones are omitted.
pub record GuardState : Type 0 where
  pub high_water : ℕ
  pub checkpoint : Bytes
  pub signature : Bytes

-- `json.Marshal` and `json.Unmarshal` at `guardState`; `none` stands for an error.
pub record JsonCodec : Type 0 where
  pub marshal : GuardState → Option Bytes
  pub unmarshal : Bytes → Option GuardState

-- The calls of `writeBytesAtomic` that can fail.
pub data WriteStep : Type 0 where
  mkdir create write chmod fsync close rename sync_dir : WriteStep

pub data GuardError : Type 0 where
  read_failed parse_failed bad_hex : GuardError
  bad_length : ℕ → ℕ → GuardError
  replay_rejected : ℕ → ℕ → GuardError
  marshal_failed : GuardError
  write_failed : WriteStep → GuardError
  persist_failed : GuardError → GuardError

-- What `os.ReadFile` finds.
pub data ReadOutcome : Type 0 where
  not_exist failed : ReadOutcome
  contents : Bytes → ReadOutcome

unfoldable pub decode_optional_hex : Bytes → ℕ → Result GuardError (Option Bytes)
decode_optional_hex s want = if length s == 0 then ok none else elim (hex_decode s) [
  | none ↦ err bad_hex
  | some b ↦ if not (length b == want) then err (bad_length want (length b)) else ok (some b)
]

pub fresh_guard : Bytes → ℕ → CheckpointReplayGuard
fresh_guard state_path high_water = record {
  state_path = state_path;
  high_water = high_water;
  loaded = true;
  signed_checkpoint = none;
  signed_signature = none;
}

-- The memo is kept only when both halves are there.
with_memo : CheckpointReplayGuard → Option Bytes → Option Bytes → CheckpointReplayGuard
with_memo g (some ckpt) (some sig) = record g {
  signed_checkpoint = some ckpt;
  signed_signature = some sig;
}
with_memo g _ _ = g

load_json : JsonCodec → Bytes → Bytes → Result GuardError CheckpointReplayGuard
unfolding fresh_guard with_memo
load_json codec state_path raw = elim (codec.unmarshal raw) [
  | none ↦ err parse_failed
  | some st ↦ elim (decode_optional_hex st.checkpoint 32) [
    | err e ↦ err e
    | ok ckpt ↦ elim (decode_optional_hex st.signature 64) [
      | err e ↦ err e
      | ok sig ↦ ok (with_memo (fresh_guard state_path st.high_water) ckpt sig)
    ]
  ]
]

load_legacy : Bytes → Bytes → Result GuardError CheckpointReplayGuard
unfolding fresh_guard
load_legacy state_path raw = elim (parse_uint raw) [
  | none ↦ err parse_failed
  | some v ↦ ok (fresh_guard state_path v)
]

unfoldable pub new_checkpoint_replay_guard :
    JsonCodec → Bytes → ReadOutcome → Result GuardError CheckpointReplayGuard
unfolding fresh_guard load_json load_legacy
new_checkpoint_replay_guard codec state_path outcome =
    if state_path == [] then ok (fresh_guard [] 0) else elim outcome [
      | not_exist ↦ ok (fresh_guard state_path 0)
      | failed ↦ err read_failed
      | contents data_ ↦
          if has_prefix (ascii "{") (trim_space data_)
          then load_json codec state_path (trim_space data_)
          else load_legacy state_path (trim_space data_)
    ]

abbrev pub Disk : Type 0
Disk = Option Bytes

-- `fails` says which calls fail. The temporary file is removed in every case, so only the rename
-- shows on the disk.
unfoldable pub write_bytes_atomic : (WriteStep → Bool) → Disk → Bytes → Disk × Option WriteStep
write_bytes_atomic fails disk b =
    if fails mkdir
    then (disk, some mkdir)
    else if fails create
    then (disk, some create)
    else if fails write
    then (disk, some write)
    else if fails chmod
    then (disk, some chmod)
    else if fails fsync
    then (disk, some fsync)
    else if fails close
    then (disk, some close)
    else if fails rename
    then (disk, some rename)
    else if fails sync_dir
    then (some b, some sync_dir)
    else (some b, none)

abbrev hex_of : Option Bytes → Bytes
hex_of none = []
hex_of (some b) = hex_encode b

-- Both halves of the memo are saved, or neither.
pub saved_state : ℕ → Option Bytes → Option Bytes → GuardState
saved_state high_water (some ckpt) (some sig) = record {
  high_water = high_water;
  checkpoint = hex_encode ckpt;
  signature = hex_encode sig;
}
saved_state high_water _ _ = record { high_water = high_water; checkpoint = []; signature = [] }

unfoldable pub persist_locked :
    JsonCodec → (WriteStep → Bool) → Disk → CheckpointReplayGuard → Disk × Option GuardError
unfolding saved_state
persist_locked codec fails disk g =
    elim (codec.marshal (saved_state g.high_water g.signed_checkpoint g.signed_signature)) [
      | none ↦ (disk, some marshal_failed)
      | some blob ↦
          let (disk', failure) = write_bytes_atomic fails disk blob in
          (disk', elim failure [ none ↦ none | some step ↦ some (write_failed step) ])
    ]

unfoldable pub cached_signature : CheckpointReplayGuard → ℕ → Bytes → Option Bytes
cached_signature g ts checkpoint =
    if not g.loaded || not (ts == g.high_water) then none else elim g.signed_checkpoint [
      | none ↦ none
      | some ckpt ↦ elim g.signed_signature [
        | none ↦ none
        | some sig ↦ if not (ckpt == checkpoint) then none else some sig
      ]
    ]

-- `append([]byte(nil), b...)`, which is nil for an empty slice
abbrev pub clone : Bytes → Option Bytes
clone [] = none
clone (b ∷ bs) = some (b ∷ bs)

unfoldable pub record_signature :
    JsonCodec
    → (WriteStep → Bool)
    → Disk
    → CheckpointReplayGuard
    → ℕ
    → Bytes
    → Bytes
    → (CheckpointReplayGuard × Disk) × Option GuardError
record_signature codec fails disk g ts checkpoint sig =
    if not (ts == g.high_water)
    then ((g, disk), none)
    else let g' = record g { signed_checkpoint = clone checkpoint; signed_signature = clone sig } in
      if g.state_path == []
      then ((g', disk), none)
      else let (disk', e) = persist_locked codec fails disk g' in ((g', disk'), e)

-- The guard that `CheckAndAdvance` tries to persist: the mark moved, the memo dropped.
unfoldable pub advanced : CheckpointReplayGuard → ℕ → CheckpointReplayGuard
advanced g ts = record g { high_water = ts; signed_checkpoint = none; signed_signature = none }

unfoldable pub check_and_advance :
    JsonCodec
    → (WriteStep → Bool)
    → Disk
    → CheckpointReplayGuard
    → ℕ
    → (CheckpointReplayGuard × Disk) × Option GuardError
unfolding advanced
check_and_advance codec fails disk g ts =
    if g.loaded && leb ts g.high_water
    then ((g, disk), some (replay_rejected ts g.high_water))
    else if g.state_path == []
    then ((advanced g ts, disk), none)
    else let (disk', failure) = persist_locked codec fails disk (advanced g ts) in
      elim failure [
        | none ↦ ((advanced g ts, disk'), none)
        | some e ↦ ((g, disk'), some (persist_failed e))
      ]
