-- ===== src/Consensus/Plane/Laws.antt =====
-- The log of a plane: what it says of the role, and which requests have a grant of their own.
use bridge_remote_signer.Base.{
  Bytes, List, Option, [], arith, false, if◌then◌else◌, inl, inr, ltb_ℤ, none, refl, some, true, ℕ,
  ℤ, ◌==◌, ◌∙◌, ◌∷◌, ◌≡◌, ◌≢◌, ◌⊎◌, bytes_eq, nat_eq,
}
use bridge_remote_signer.Consensus.Primary.{PrimaryArbiter, acquire, release}
use bridge_remote_signer.Consensus.Primary.Laws.{MayTake}
use bridge_remote_signer.Consensus.Types.{
  CometTypes, Message, sign_vote_request, sign_proposal_request,
}
use bridge_remote_signer.Consensus.Handler.{Handler}
use bridge_remote_signer.Consensus.Gate.{Node, sign, passes, not_primary_response}
use bridge_remote_signer.Consensus.Gate.Laws.{sign_height}
use bridge_remote_signer.Consensus.Dial.{on_state}
use bridge_remote_signer.Consensus.Plane.{
  Event, won, denied, lost, handed, Phase, down, up, elected, handling,
}
use mathlib.Core.Logic.{ite, if_neg}
use native.Mathlib.Decide.{ℕ_discrete}

module _ (c : CometTypes) where
  abbrev pub client : Event c → ℕ
  client (won i now req height) = i
  client (denied i now height) = i
  client (lost i) = i
  client (handed i req) = i

  -- The last event of a client.
  abbrev pub last : ℕ → List (Event c) → Option (Event c)
  last i [] = none
  last i (e ∷ log) = ite (ℕ_discrete (client e) i) (some e) (last i log)

  -- The last that client `i` did was to win the election for this request.
  abbrev pub IsWinner : List (Event c) → ℕ → Message c → Type 0
  IsWinner log i req =
      (now : ℕ) × (height : ℤ) × (last i log ≡ some (won i now req height))
      × (sign_height c req ≡ some height)

  pub sign-height :
      (req refusal : Message c) (height : ℤ)
      → not_primary_response c req ≡ sign refusal height
      → sign_height c req ≡ some height
  unfolding not_primary_response
  sign-height (sign_vote_request (some v) cid) refusal height e = ground arith
  sign-height (sign_proposal_request (some p) cid) refusal height e = ground arith
  sign-height (sign_vote_request none cid) refusal height e = absurd (ground arith)
  sign-height (sign_proposal_request none cid) refusal height e = absurd (ground arith)
  sign-height _ refusal height e = absurd (ground arith)

  pub sign_height-passes :
      (req : Message c) → not_primary_response c req ≡ passes → sign_height c req ≡ none
  unfolding not_primary_response
  sign_height-passes (sign_vote_request (some v) cid) e = absurd (ground arith)
  sign_height-passes (sign_proposal_request (some p) cid) e = absurd (ground arith)
  sign_height-passes (sign_vote_request none cid) e = absurd (ground arith)
  sign_height-passes (sign_proposal_request none cid) e = absurd (ground arith)
  sign_height-passes _ e = refl

  -- What is known of a client at each phase.
  abbrev pub IsInPhase : List (Event c) → ℕ → Phase c → Type 0
  IsInPhase log i down = Unit
  IsInPhase log i up = Unit
  IsInPhase log i (elected req) = IsWinner log i req
  IsInPhase log i (handling req) = (sign_height c req ≡ none) ⊎ IsWinner log i req

  -- An event of another client says nothing of this one.
  last-other :
      (e : Event c) (log : List (Event c)) (j : ℕ) → client e ≢ j → last j (e ∷ log) ≡ last j log
  last-other e log j apart = if_neg (ℕ_discrete (client e) j) apart (some e) (last j log)

  pub IsInPhase-other :
      (e : Event c) (log : List (Event c)) (j : ℕ) (p : Phase c)
      → client e ≢ j
      → IsInPhase log j p
      → IsInPhase (e ∷ log) j p
  IsInPhase-other e log j down apart h = tt
  IsInPhase-other e log j up apart h = tt
  IsInPhase-other e log j (elected req) apart (now, height, at, asked) =
      (now, height, last-other e log j apart ∙ at, asked)
  IsInPhase-other e log j (handling req) apart (inl none_asked) = inl none_asked
  IsInPhase-other e log j (handling req) apart (inr (now, height, at, asked)) =
      inr (now, height, last-other e log j apart ∙ at, asked)

module _ (c : CometTypes) (target : ℕ → Bytes) where
  -- Who holds the role by the log: the last winner, unless it was lost since.
  abbrev pub role_after : PrimaryArbiter → List (Event c) → PrimaryArbiter
  role_after a [] = a
  role_after a (won i now req height ∷ log) =
      let b = role_after a log in
      record b {
        primary = target i;
        last_req = now;
        max_height = if ltb_ℤ b.max_height height then height else b.max_height;
      }
  role_after a (denied i now height ∷ log) = role_after a log
  role_after a (lost i ∷ log) =
      let b = role_after a log in
      if b.primary == target i then record b { primary = []; last_req = 0 } else b
  role_after a (handed i req ∷ log) = role_after a log

  -- Every grant had its ground in what the log says before it, every refusal had none, and every
  -- request for a signature that was given to the key had won just before, for itself.
  abbrev pub IsServed : PrimaryArbiter → List (Event c) → Type 0
  IsServed a [] = Unit
  IsServed a (won i now req height ∷ log) =
      (sign_height c req ≡ some height)
      × MayTake (role_after a log) now (target i) height
      × IsServed a log
  IsServed a (denied i now height ∷ log) =
      (¬ MayTake (role_after a log) now (target i) height) × IsServed a log
  IsServed a (lost i ∷ log) = IsServed a log
  IsServed a (handed i req ∷ log) =
      ((sign_height c req ≡ none) ⊎ IsWinner c log i req) × IsServed a log

-- The key's state after the requests of the log, one after the other.
abbrev pub key_after : (c : CometTypes) {S : Type 0} → Handler c S → Bytes → S → List (Event c) → S
key_after c next chain_id pv [] = pv
key_after c next chain_id pv (handed i req ∷ log) =
    (next (key_after c next chain_id pv log) req chain_id).0
key_after c next chain_id pv (won i now req height ∷ log) = key_after c next chain_id pv log
key_after c next chain_id pv (denied i now height ∷ log) = key_after c next chain_id pv log
key_after c next chain_id pv (lost i ∷ log) = key_after c next chain_id pv log

pub acquire-won :
    (a : PrimaryArbiter) (now : ℕ) (id : Bytes) (height : ℤ)
    → (acquire a now id height).1 ≡ true
    → (acquire a now id height).0 ≡ record a {
      primary = id;
      last_req = now;
      max_height = if ltb_ℤ a.max_height height then height else a.max_height;
    }
unfolding acquire
acquire-won a now id height h = ground arith

pub acquire-denied :
    (a : PrimaryArbiter) (now : ℕ) (id : Bytes) (height : ℤ)
    → (acquire a now id height).1 ≡ false
    → (acquire a now id height).0 ≡ a
unfolding acquire
acquire-denied a now id height h = ground arith

pub on_state-lost :
    {S : Type 0} (id : Bytes) (n : Node S) (a : PrimaryArbiter)
    → n.arbiter ≡ some a
    → ((on_state id false n).arbiter
        ≡ some (if a.primary == id then record a { primary = []; last_req = 0 } else a))
      × ((on_state id false n).pv ≡ n.pv)
unfolding on_state release
on_state-lost id n a e = rw e (ground arith)

pub on_state-up :
    {S : Type 0} (id : Bytes) (n : Node S)
    → ((on_state id true n).arbiter ≡ n.arbiter) × ((on_state id true n).pv ≡ n.pv)
unfolding on_state
on_state-up id n = (refl, refl)
