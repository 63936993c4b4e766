-- ===== src/Server/ReplayGuard/Tests.antt =====
-- A history of the guard with a failed write and a restart, and the theorems at concrete inputs.
use mathlib.Core.List.{append_assoc}
use bridge_remote_signer.Text.{hex_encode, hex_digit}
use bridge_remote_signer.Net.Laws.{take-length-append, drop-length-append}
use bridge_remote_signer.Server.ReplayGuard.{
  CheckpointReplayGuard, GuardState, JsonCodec, WriteStep, write, sync_dir, write_bytes_atomic,
  saved_state, new_checkpoint_replay_guard, contents,
}
use bridge_remote_signer.Server.ReplayGuard.Laws.{IsJson, load-persist}
use bridge_remote_signer.Server.ReplayGuard.Atomic.{write_bytes_atomic_lem}
use bridge_remote_signer.Server.ReplayGuard.History.{
  Event, advance, memoize, restart, World, run, start, IsDescending, IsRecorded,
}
use bridge_remote_signer.Server.ReplayGuard.History.Runs.{run-IsDescending}
use bridge_remote_signer.Base.{
  Bool, Bytes, List, Option, [], arith, ascii, drop, false, length, none, ok, refl, replicate, some,
  subst, take, true, ◌++◌, ◌∷◌, ◌≡◌, ◌≢◌, ◌⊎◌,
}

-- An encoding with braces and lengths, in place of JSON.
abbrev pub braces : JsonCodec
braces = record {
  marshal = λ st. some (
      b'{'
      ∷ length st.checkpoint
      ∷ length st.signature
      ∷ st.high_water
      ∷ (st.checkpoint ++ (st.signature ++ b'}' ∷ [])));
  unmarshal = λ b. elim b [
    | x ∷ n ∷ m ∷ high_water ∷ rest ↦ some (record {
      high_water = high_water;
      checkpoint = take n rest;
      signature = take m (drop n rest);
    })
    | _ ↦ none
  ];
}

braces-round_trip :
    (st : GuardState)
    → elim (braces.marshal st) [ none ↦ none | some b ↦ braces.unmarshal b ] ≡ some st
braces-round_trip st =
    rw
      (
        take-length-append st.checkpoint,
        drop-length-append st.checkpoint,
        take-length-append st.signature,
      )
      refl

pub braces-IsJson : IsJson braces
braces-IsJson = record {
  object = λ st blob e. (
    length st.checkpoint ∷ length st.signature ∷ st.high_water ∷ (st.checkpoint ++ st.signature),
    cc (append_assoc st.checkpoint st.signature (b'}' ∷ [])),
  );
  round_trip = λ high_water ckpt sig blob small hc hs e.
      subst
        (λ (o : Option Bytes).
          elim o [ none ↦ none | some b ↦ braces.unmarshal b ]
          ≡ some (record {
            high_water = high_water;
            checkpoint = hex_encode ckpt;
            signature = hex_encode sig;
          }))
        e
        (braces-round_trip (record {
          high_water = high_water;
          checkpoint = hex_encode ckpt;
          signature = hex_encode sig;
        }));
}

abbrev path : Bytes
path = ascii "guard"

abbrev checkpoint : Bytes
checkpoint = replicate 32 1

abbrev signature : Bytes
signature = replicate 64 2

abbrev works : WriteStep → Bool
works s = false

abbrev full_disk : WriteStep → Bool
full_disk write = true
full_disk _ = false

-- A grant with its signature, a restart, a repeat, a failed write and a second grant.
abbrev events : List Event
events =
    advance 100 works
    ∷ memoize 100 checkpoint signature works
    ∷ restart
    ∷ advance 100 works
    ∷ advance 200 full_disk
    ∷ advance 200 works
    ∷ []

run-IsDescending_example :
    (w : World) × (run braces path (start path) events ≡ ok w)
    × IsDescending w.granted
    × IsRecorded w.guard.high_water w.guard.signed_checkpoint w.guard.signed_signature w.recorded
run-IsDescending_example =
    run-IsDescending braces braces-IsJson path events (λ e. cc) (ground arith)

abbrev guard : CheckpointReplayGuard
guard = record {
  state_path = path;
  high_water = 100;
  loaded = true;
  signed_checkpoint = some checkpoint;
  signed_signature = some signature;
}

abbrev blob : Bytes
blob = b'{' ∷ 64 ∷ 128 ∷ 100 ∷ (hex_encode checkpoint ++ (hex_encode signature ++ b'}' ∷ []))

load-persist_example : new_checkpoint_replay_guard braces path (contents blob) ≡ ok guard
unfolding saved_state hex_encode hex_digit
load-persist_example =
    load-persist braces braces-IsJson path guard blob
      (record {
        named = λ e. cc;
        at_path = refl;
        ready = refl;
        small = omega arith;
        memo = ground arith;
      })
      refl

write_bytes_atomic_lem_case :
    let (disk', failure) = write_bytes_atomic full_disk none (7 ∷ []) in
    ((disk' ≡ some (7 ∷ [])) × ((failure ≡ none) ⊎ (failure ≡ some sync_dir)))
    ⊎ ((disk' ≡ none) × (failure ≢ none) × (failure ≢ some sync_dir))
write_bytes_atomic_lem_case = write_bytes_atomic_lem full_disk none (7 ∷ [])
