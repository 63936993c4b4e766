-- ===== src/Consensus/Gate.antt =====
-- consensus/server.go: `notPrimaryResponse` and `gatedHandler`, which put the election in front
-- of the signing handler. A Go panic is an outcome.
pub mod Laws
use bridge_remote_signer.Metrics.{Metrics, record_sign}
use bridge_remote_signer.Consensus.Primary.{PrimaryArbiter, acquire}
use bridge_remote_signer.Consensus.Types.{
  CometTypes, Error, Message, not_primary, sign_vote_request, sign_proposal_request,
  signed_vote_response, signed_proposal_response, zero_vote, zero_proposal,
}
use bridge_remote_signer.Consensus.Handler.{Handler}
use bridge_remote_signer.Base.{Bytes, Option, if◌then◌else◌, none, not, some, ℕ, ℤ}

pub data Outcome (A : Type 0) : Type 0 where
  panics : Outcome A
  returns : A → Outcome A

infixl 5 ◌>>=◌
abbrev pub ◌>>=◌ : {A B : Type 0} → Outcome A → (A → Outcome B) → Outcome B
panics >>= f = panics
returns a >>= f = f a

-- The run ends without a panic, and its result has the property.
abbrev pub Returns : {A : Type 0} → (A → Type 0) → Outcome A → Type 0
Returns P panics = ⊥
Returns P (returns a) = P a

pub >>=-Returns :
    {A B : Type 0} (Q : A → Type 0) (P : B → Type 0) (m : Outcome A) (f : A → Outcome B)
    → Returns Q m
    → ((a : A) → Q a → Returns P (f a))
    → Returns P (m >>= f)
>>=-Returns Q P panics f h k = h
>>=-Returns Q P (returns a) f h k = k a h

-- The state that the dial clients share: the arbiter (nil if no election is configured), the
-- metrics and the key's state.
pub record Node (S : Type 0) : Type 0 where
  pub arbiter : Option PrimaryArbiter
  pub metrics : Metrics
  pub pv : S

module _ (c : CometTypes) where
  -- What `notPrimaryResponse` finds: a sign request with its refusal and height, one whose vote
  -- or proposal is nil, so that reading its height faults, or another request.
  pub data Gated : Type 0 where
    sign : Message c → ℤ → Gated
    nil_payload : Gated
    passes : Gated

  unfoldable pub not_primary_response : Message c → Gated
  not_primary_response (sign_vote_request (some v) cid) =
      sign (signed_vote_response (zero_vote c) (some not_primary)) v.height
  not_primary_response (sign_vote_request none cid) = nil_payload
  not_primary_response (sign_proposal_request (some p) cid) =
      sign (signed_proposal_response (zero_proposal c) (some not_primary)) p.height
  not_primary_response (sign_proposal_request none cid) = nil_payload
  not_primary_response _ = passes

module _ (c : CometTypes) {S : Type 0} (next : Handler c S) where
  abbrev pub Reply : Type 0
  Reply = Outcome (Node S × Message c × Option (Error c))

  abbrev pub delegate : Node S → Message c → Bytes → Node S × Message c × Option (Error c)
  delegate n req chain_id =
      let (pv, res, err) = next n.pv req chain_id in (record n { pv = pv }, res, err)

  -- The handler of the client that dials `id`, at the time `now`, under the arbiter `a`.
  unfoldable pub gated_handler : PrimaryArbiter → Bytes → Node S → ℕ → Message c → Bytes → Reply
  unfolding not_primary_response
  gated_handler a id n now req chain_id = elim (not_primary_response c req) [
    | nil_payload ↦ panics
    | passes ↦ returns (delegate n req chain_id)
    | sign refusal height ↦
        let (a', acquired) = acquire a now id height in
        if not acquired
        then returns (record n { arbiter = some a' }, refusal, none)
        else returns (
            delegate (record n { arbiter = some a'; metrics = record_sign n.metrics id }) req
              chain_id)
  ]

  -- `RunDialClient` puts the gate in front only if there is an arbiter.
  unfoldable pub client_handler : Bytes → Node S → ℕ → Message c → Bytes → Reply
  unfolding gated_handler
  client_handler id n now req chain_id = elim n.arbiter [
    | none ↦ returns (delegate n req chain_id)
    | some a ↦ gated_handler a id n now req chain_id
  ]
