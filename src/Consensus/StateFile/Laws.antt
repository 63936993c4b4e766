-- ===== src/Consensus/StateFile/Laws.antt =====
-- Runs of init-state and start commands on one state file.
use bridge_remote_signer.Base.{
  Bool, Bytes, List, Option, Option-cases, [], arith, err, false, inl, inr, none, ok, refl, some,
  true, ◌∷◌, ◌≡◌, ◌≢◌,
}
use bridge_remote_signer.Consensus.StateFile.{
  Entry, absent, directory, regular, WriteEnd, require_state_file, init_state_file, PvCodec, FilePv,
  load_state, load_comet_file_pv, LastSignState,
}

-- A command on the state file: `init-state`, or a `start` with the states that CometBFT's FilePV saves
-- while it runs, one for each signature.
pub data Command : Type 0 where
  init_state : Bool → WriteEnd → Command
  start : Bool → Option Bytes → Bool → List LastSignState → Command

-- The state after these have been saved.
abbrev pub last_state : LastSignState → List LastSignState → LastSignState
last_state s [] = s
last_state s (t ∷ ts) = last_state t ts

module _ (codec : PvCodec) where
  -- The key and state that a start signs with; `none` when it refuses.
  unfoldable pub loaded : Command → Entry → Option (FilePv codec)
  loaded (init_state stat_fails end) entry = none
  loaded (start stat_fails key_json read_fails saves) entry =
      elim (require_state_file stat_fails entry) [
        | err e ↦ none
        | ok there ↦ elim (load_comet_file_pv codec key_json read_fails entry) [
          | err e ↦ none
          | ok pv ↦ some pv
        ]
      ]

  -- The file's own state.
  abbrev pub IsFileState : Bytes → FilePv codec → Type 0
  IsFileState b pv = codec.unmarshal_state b ≡ some pv.last_sign_state

  -- A start that goes on resumes from the file.
  pub start_sound :
      (stat_fails read_fails : Bool) (key_json : Option Bytes) (entry : Entry) (pv : FilePv codec)
      → require_state_file stat_fails entry ≡ ok tt
      → load_comet_file_pv codec key_json read_fails entry ≡ ok pv
      → (b : Bytes) × (entry ≡ regular b) × IsFileState b pv
  unfolding require_state_file load_comet_file_pv load_state
  start_sound true read_fails key_json entry pv there h = ground arith
  start_sound false read_fails key_json absent pv there h = ground arith
  start_sound false read_fails key_json directory pv there h = ground arith
  start_sound false true key_json (regular b) pv there h = ground arith
  start_sound false false key_json (regular b) pv there h = (b, refl, ground arith)

  loaded-IsFileState :
      (c : Command) (b : Bytes) (pv : FilePv codec)
      → loaded c (regular b) ≡ some pv
      → IsFileState b pv
  unfolding loaded load_comet_file_pv load_state require_state_file
  loaded-IsFileState (init_state stat_fails end) b pv h = ground arith
  loaded-IsFileState (start true key_json read_fails saves) b pv h = ground arith
  loaded-IsFileState (start false key_json read_fails saves) b pv h = ground arith

  -- With no file, or with a directory in its place, no start goes on.
  pub loaded-absent :
      (c : Command) (entry : Entry) → ((b : Bytes) → entry ≢ regular b) → loaded c entry ≡ none
  unfolding loaded require_state_file
  loaded-absent (init_state stat_fails end) entry h = refl
  loaded-absent (start true key_json read_fails saves) entry h = refl
  loaded-absent (start false key_json read_fails saves) absent h = refl
  loaded-absent (start false key_json read_fails saves) directory h = refl
  loaded-absent (start false key_json read_fails saves) (regular b) h = absurd (h b refl)

-- `save` gives the bytes that FilePV puts in place of the file for a state, at once or not at all. A
-- state whose write fails ends the process, and is not in the list.
module _ (codec : PvCodec) (save : LastSignState → Bytes) where
  abbrev pub save_all : List LastSignState → Entry → Entry
  save_all [] entry = entry
  save_all (s ∷ ss) entry = save_all ss (regular (save s))

  unfoldable pub perform : Command → Entry → Entry
  perform (init_state stat_fails end) entry = (init_state_file stat_fails end entry).0
  perform (start stat_fails key_json read_fails saves) entry =
      elim (loaded codec (start stat_fails key_json read_fails saves) entry) [
        | none ↦ entry
        | some pv ↦ save_all saves entry
      ]

  abbrev pub saves_of : Command → List LastSignState
  saves_of (init_state stat_fails end) = []
  saves_of (start stat_fails key_json read_fails saves) = saves

  -- The starts that went on, each with what it resumed from and what it saved.
  unfoldable pub sessions : List Command → Entry → List (FilePv codec × List LastSignState)
  sessions [] entry = []
  sessions (c ∷ cs) entry = elim (loaded codec c entry) [
    | none ↦ sessions cs (perform c entry)
    | some pv ↦ (pv, saves_of c) ∷ sessions cs (perform c entry)
  ]

  -- Each session resumes from the state that the ones before it have left.
  abbrev pub AreContinued : LastSignState → List (FilePv codec × List LastSignState) → Type 0
  AreContinued s [] = Unit
  AreContinued s ((pv, saves) ∷ rest) =
      (pv.last_sign_state ≡ s) × AreContinued (last_state s saves) rest

  -- The file holds this state.
  abbrev pub Holds : LastSignState → Entry → Type 0
  Holds s entry = (b : Bytes) × (entry ≡ regular b) × (codec.unmarshal_state b ≡ some s)

  -- What FilePV has saved is read back.
  abbrev pub IsReadBack : Type 0
  IsReadBack = (s : LastSignState) → codec.unmarshal_state (save s) ≡ some s

  module _ (reads : IsReadBack) where
    save_all-Holds :
        (ss : List LastSignState) (s : LastSignState) (entry : Entry)
        → Holds s entry
        → Holds (last_state s ss) (save_all ss entry)
    save_all-Holds [] s entry h = h
    save_all-Holds (t ∷ ts) s entry h =
        save_all-Holds ts t (regular (save t)) (save t, refl, reads t)

    refused-Holds :
        (c : Command) (s : LastSignState) (b : Bytes)
        → loaded codec c (regular b) ≡ none
        → perform c (regular b) ≡ regular b
    unfolding perform init_state_file
    refused-Holds (init_state true end) s b e = refl
    refused-Holds (init_state false end) s b e = refl
    refused-Holds (start stat_fails key_json read_fails saves) s b e = rw (perform, e) refl

    gone_on-Holds :
        (c : Command) (s : LastSignState) (b : Bytes) (pv : FilePv codec)
        → codec.unmarshal_state b ≡ some s
        → loaded codec c (regular b) ≡ some pv
        → (pv.last_sign_state ≡ s) × Holds (last_state s (saves_of c)) (perform c (regular b))
    unfolding perform loaded
    gone_on-Holds (init_state stat_fails end) s b pv h e = absurd (ground arith)
    gone_on-Holds (start stat_fails key_json read_fails saves) s b pv h e =
        let file = loaded-IsFileState codec (start stat_fails key_json read_fails saves) b pv e in
        (cc, rw (perform, e) (save_all-Holds saves s (regular b) (b, refl, h)))

    -- If what CometBFT's FilePV saves is read back: however many init-state and start commands run on
    -- a state file that is there, in whatever order and with whatever errors, every start that goes on
    -- resumes from the last state that
    -- a start before it has saved, or from the file's first one if none has.
    pub sessions-AreContinued :
        (cs : List Command) (s : LastSignState) (b : Bytes)
        → codec.unmarshal_state b ≡ some s
        → AreContinued s (sessions cs (regular b))
    unfolding sessions
    sessions-AreContinued [] s b h = tt
    sessions-AreContinued (c ∷ cs) s b h = elim (Option-cases (loaded codec c (regular b))) [
      | inl e ↦ rw (sessions, e, refused-Holds c s b e) (sessions-AreContinued cs s b h)
      | inr (pv, e) ↦
          let (from, after) = gone_on-Holds c s b pv h e in
          let (b', there, left) = after in
          rw (sessions, e, there)
            (from, sessions-AreContinued cs (last_state s (saves_of c)) b' left)
    ]
