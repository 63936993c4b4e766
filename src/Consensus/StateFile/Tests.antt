-- ===== src/Consensus/StateFile/Tests.antt =====
-- A state file over two sessions and an init-state between them.
use bridge_remote_signer.Base.{
  Bytes, List, Option, [], ascii, drop, err, false, length, negsuc, none, pos, refl, some, suc,
  take, take_of_append, zero, ℕ, ℤ, ◌++◌, ◌∷◌, ◌≡◌,
}
use bridge_remote_signer.Consensus.StateFile.{
  absent, regular, written, LastSignState, PvCodec, FilePv, fresh_state_json, init_state_file,
  write_file, already_exists, require_state_file, load_comet_file_pv, load_state,
}
use bridge_remote_signer.Consensus.StateFile.Laws.{
  Command, init_state, start, loaded, perform, sessions, AreContinued, IsReadBack,
  sessions-AreContinued,
}

abbrev at_height : ℕ → LastSignState
at_height h = record {
  height = pos h;
  round = pos 0;
  step = pos 3;
  signature = [];
  sign_bytes = [];
}

abbrev int_sign : ℤ → ℕ
int_sign (pos n) = 0
int_sign (negsuc n) = 1

abbrev int_size : ℤ → ℕ
int_size (pos n) = n
int_size (negsuc n) = n

abbrev to_int : ℕ → ℕ → ℤ
to_int zero n = pos n
to_int (suc k) n = negsuc n

to_int_back : (z : ℤ) → to_int (int_sign z) (int_size z) ≡ z
to_int_back (pos n) = refl
to_int_back (negsuc n) = refl

-- The three numbers, the length of the signature, and both byte strings.
abbrev save : LastSignState → Bytes
save s =
    int_sign s.height
    ∷ int_size s.height
    ∷ int_sign s.round
    ∷ int_size s.round
    ∷ int_sign s.step
    ∷ int_size s.step
    ∷ length s.signature
    ∷ (s.signature ++ s.sign_bytes)

abbrev unmarshal : Bytes → Option LastSignState
unmarshal (a ∷ h ∷ b ∷ r ∷ d ∷ t ∷ k ∷ rest) = some (record {
  height = to_int a h;
  round = to_int b r;
  step = to_int d t;
  signature = take k rest;
  sign_bytes = drop k rest;
})
unmarshal _ = none

abbrev codec : PvCodec
codec = record {
  PrivKey = Bytes;
  unmarshal_key = λ b. some (some b);
  unmarshal_state = unmarshal;
  new_last_sign_state = at_height 0;
}

drop_of_append : (xs ys : Bytes) → drop (length xs) (xs ++ ys) ≡ ys
drop_of_append [] ys = refl
drop_of_append (x ∷ xs) ys = drop_of_append xs ys

save-IsReadBack : IsReadBack codec save
save-IsReadBack s =
    rw
      (
        to_int_back s.height,
        to_int_back s.round,
        to_int_back s.step,
        take_of_append s.signature s.sign_bytes,
        drop_of_append s.signature s.sign_bytes,
      )
      refl

-- A session that signs twice, an `init-state`, a start without a key, and a session after them.
abbrev commands : List Command
commands =
    start false (some (ascii "key")) false (at_height 5 ∷ at_height 6 ∷ [])
    ∷ init_state false written
    ∷ start false none false (at_height 7 ∷ [])
    ∷ start false (some (ascii "key")) false []
    ∷ []

abbrev key_at : ℕ → FilePv codec
key_at h = record { priv_key = ascii "key"; last_sign_state = at_height h }

two_sessions :
    sessions codec save commands (regular (save (at_height 4)))
    ≡ (key_at 4, at_height 5 ∷ at_height 6 ∷ []) ∷ (key_at 6, []) ∷ []
unfolding sessions loaded perform init_state_file require_state_file load_comet_file_pv load_state
two_sessions = refl

init_once :
    init_state_file false written (init_state_file false written absent).0
    ≡ (regular fresh_state_json, err already_exists)
unfolding init_state_file write_file
init_once = refl

sessions-AreContinued_example :
    AreContinued codec save
      (at_height 4)
      (sessions codec save commands (regular (save (at_height 4))))
sessions-AreContinued_example =
    sessions-AreContinued codec save save-IsReadBack commands (at_height 4) (save (at_height 4))
      (save-IsReadBack (at_height 4))
