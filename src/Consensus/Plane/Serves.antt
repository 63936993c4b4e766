-- ===== src/Consensus/Plane/Serves.antt =====
-- However the dial clients interleave, the key serves nobody who has not won the election.
use bridge_remote_signer.Base.{
  Bool-cases, Bytes, List, ap, arith, if◌then◌else◌, inl, inr, ltb_ℤ, refl, some, subst, sym, ℕ, ℤ,
  ◌∙◌, ◌∷◌, ◌≡◌,
}
use bridge_remote_signer.Base.Family.{update}
use bridge_remote_signer.Consensus.Primary.{PrimaryArbiter, acquire}
use bridge_remote_signer.Consensus.Primary.Laws.{MayTake, acquire-MayTake}
use bridge_remote_signer.Consensus.Types.{CometTypes, Message}
use bridge_remote_signer.Consensus.Handler.{Handler}
use bridge_remote_signer.Consensus.Gate.{Node}
use bridge_remote_signer.Consensus.Gate.Laws.{sign_height}
use bridge_remote_signer.Consensus.Plane.{
  Phase, down, up, elected, handling, Event, won, denied, lost, handed, Plane, do_lose, do_ask,
  Step, dial_fails, connects, hangs_up, goes_on, asks, notes, handles, Reach, begin, later,
}
use bridge_remote_signer.Consensus.Plane.Laws.{
  client, last, sign-height, sign_height-passes, IsInPhase, IsInPhase-other, role_after, IsServed,
  key_after, acquire-won, acquire-denied, on_state-lost, on_state-up,
}
use mathlib.Core.Logic.{if_pos, if_neg}
use mathlib.Core.Bool.{false≢true}
use native.Mathlib.Decide.{ℕ_discrete}

module _ (c : CometTypes) {S : Type 0} (next : Handler c S) (chain_id : Bytes) (target : ℕ → Bytes)
    (n : Node S) (a₀ : PrimaryArbiter) where
  pub record Inv (s : Plane c S) : Type 0 where
    pub role : s.node.arbiter ≡ some (role_after c target a₀ s.log)
    pub key : s.node.pv ≡ key_after c next chain_id n.pv s.log
    pub served : IsServed c target a₀ s.log
    pub phases : (i : ℕ) → IsInPhase c s.log i (s.phase i)

  -- The phases after client `i` has logged an event, or has moved on without one.
  phases-logged :
      (s : Plane c S) (e : Event c) (p : Phase c)
      → Inv s
      → IsInPhase c (e ∷ s.log) (client c e) p
      → (j : ℕ) → IsInPhase c (e ∷ s.log) j (update s.phase (client c e) p j)
  phases-logged s e p inv new j = elim (ℕ_discrete (client c e) j) [
    | yes same ↦
        rw (if_pos (ℕ_discrete (client c e) j) same)
          (subst (λ k. IsInPhase c (e ∷ s.log) k p) same new)
    | no apart ↦
        rw (if_neg (ℕ_discrete (client c e) j) apart)
          (IsInPhase-other c e s.log j (s.phase j) apart (inv.phases j))
  ]

  phases-moved :
      (s : Plane c S) (i : ℕ) (p : Phase c)
      → Inv s
      → IsInPhase c s.log i p
      → (j : ℕ) → IsInPhase c s.log j (update s.phase i p j)
  phases-moved s i p inv new j = elim (ℕ_discrete i j) [
    | yes same ↦ rw (if_pos (ℕ_discrete i j) same) (subst (λ k. IsInPhase c s.log k p) same new)
    | no apart ↦ rw (if_neg (ℕ_discrete i j) apart) (inv.phases j)
  ]

  last-own : (e : Event c) (log : List (Event c)) → last c (client c e) (e ∷ log) ≡ some e
  last-own e log =
      if_pos (ℕ_discrete (client c e) (client c e)) refl (some e) (last c (client c e) log)

  lose-Inv : (s : Plane c S) (i : ℕ) → Inv s → Inv (do_lose c target s i)
  lose-Inv s i inv =
      let (role, pv) = on_state-lost (target i) s.node (role_after c target a₀ s.log) inv.role in
      record {
        role = role;
        key = pv ∙ inv.key;
        served = inv.served;
        phases = phases-logged s (lost i) down inv tt;
      }

  ask-Inv :
      (s : Plane c S) (i now : ℕ) (req : Message c) (a : PrimaryArbiter) (height : ℤ)
      → s.node.arbiter ≡ some a
      → sign_height c req ≡ some height
      → Inv s
      → Inv (do_ask c target s i a now req height)
  ask-Inv s i now req a height at asked inv =
      let same : a ≡ role_after c target a₀ s.log = ground arith in
      elim (Bool-cases (acquire a now (target i) height).1) [
        | inl taken ↦ rw taken (record {
          role = ap some (
              acquire-won a now (target i) height taken
              ∙ ap
                  (λ (b : PrimaryArbiter). record b {
                    primary = target i;
                    last_req = now;
                    max_height = if ltb_ℤ b.max_height height then height else b.max_height;
                  })
                  same);
          key = inv.key;
          served = (
            asked,
            subst (λ b. MayTake b now (target i) height) same
                ((acquire-MayTake a now (target i) height).0 taken),
            inv.served,
          );
          phases =
              phases-logged s (won i now req height) (elected req) inv
                (now, height, last-own (won i now req height) s.log, asked);
        })
        | inr refused ↦ rw refused (record {
          role = ap some (acquire-denied a now (target i) height refused ∙ same);
          key = inv.key;
          served = (
            λ may. false≢true (
                sym refused
                ∙ (acquire-MayTake a now (target i) height).1
                    (subst (λ b. MayTake b now (target i) height) (sym same) may)),
            inv.served,
          );
          phases = phases-logged s (denied i now height) up inv tt;
        })
      ]

  pub Step-Inv : {s t : Plane c S} → Step c next chain_id target s t → Inv s → Inv t
  Step-Inv {s} (dial_fails i at) inv = lose-Inv s i inv
  Step-Inv {s} (hangs_up i at) inv = lose-Inv s i inv
  Step-Inv {s} (connects i at) inv =
      let (role, pv) = on_state-up (target i) s.node in
      record {
        role = role ∙ inv.role;
        key = pv ∙ inv.key;
        served = inv.served;
        phases = phases-moved s i up inv tt;
      }
  Step-Inv {s} (goes_on i req at free) inv = record {
    role = inv.role;
    key = inv.key;
    served = inv.served;
    phases = phases-moved s i (handling req) inv (elim free [
      | inl unarmed ↦ absurd (ground arith)
      | inr plain ↦ inl (sign_height-passes c req plain)
    ]);
  }
  Step-Inv {s} (asks i now req {a} {refusal} {height} at armed is_sign) inv =
      ask-Inv s i now req a height armed (sign-height c req refusal height is_sign) inv
  Step-Inv {s} (notes i {req} at) inv = record {
    role = inv.role;
    key = inv.key;
    served = inv.served;
    phases =
        phases-moved s i (handling req) inv (inr (subst (IsInPhase c s.log i) at (inv.phases i)));
  }
  Step-Inv {s} (handles i {req} at) inv = record {
    role = inv.role;
    key = ap (λ pv. (next pv req chain_id).0) inv.key;
    served = (subst (IsInPhase c s.log i) at (inv.phases i), inv.served);
    phases = phases-logged s (handed i req) up inv tt;
  }

  Reach-Inv : {s : Plane c S} → n.arbiter ≡ some a₀ → Reach c next chain_id target n s → Inv s
  Reach-Inv armed begin = record { role = armed; key = refl; served = tt; phases = λ i. tt }
  Reach-Inv armed (later reach step) = Step-Inv step (Reach-Inv armed reach)

  -- However the dial clients of all targets interleave: every request for a signature that reaches
  -- the key comes from a client whose last act was to win the election for that request, every
  -- grant had its ground and every refusal had none in what the clients had done before, the
  -- arbiter is what the log says, and the key's state is that of the requests one after the other.
  pub Reach-IsServed :
      {s : Plane c S}
      → n.arbiter ≡ some a₀
      → Reach c next chain_id target n s
      → IsServed c target a₀ s.log
        × (s.node.arbiter ≡ some (role_after c target a₀ s.log))
        × (s.node.pv ≡ key_after c next chain_id n.pv s.log)
  Reach-IsServed armed reach = let inv = Reach-Inv armed reach in (inv.served, inv.role, inv.key)
