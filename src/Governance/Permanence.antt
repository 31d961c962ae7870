-- ===== src/Governance/Permanence.antt =====
-- What never changes of a proposal.
use stellar_did_credit.Base.{
  Option, arith, false, inl, inr, none, refl, some, true, ℕ, ◌||◌, ◌∙◌, ◌≡◌, ◌≤ℤ◌, ◌⊎◌,
}
use stellar_did_credit.Host.{Env, ensured}
use stellar_did_credit.CreditOracle.Types.{}
use stellar_did_credit.Governance.State.{Governance, GovernanceProposal, Peer}
use stellar_did_credit.Governance.Tallies.{IsTallied, Reach-IsTallied}
use stellar_did_credit.Governance.Steps.{Reach, here, invocation, next, run}
use stellar_did_credit.Governance.Proposals.{get_proposal}
use stellar_did_credit.Governance.Lifecycle.{
  Advances, IsEnacted, IsVoted, IsWithdrawn, run-Advances,
}

-- A later form of a proposal: its terms stay, its tallies do not fall, and once it was executed or
-- cancelled nothing of it changes.
abbrev pub Follows : Option GovernanceProposal → Option GovernanceProposal → Type 0
Follows none after = Unit
Follows (some p) none = ⊥
Follows (some p) (some q) =
    (q.id ≡ p.id)
    × (q.proposer ≡ p.proposer)
    × (q.proposed_weights ≡ p.proposed_weights)
    × (q.expiry_ledger ≡ p.expiry_ledger)
    × (q.execution_delay_ledgers ≡ p.execution_delay_ledgers)
    × (q.quorum_required ≡ p.quorum_required)
    × (p.votes_for ≤ℤ q.votes_for)
    × (p.votes_against ≤ℤ q.votes_against)
    × ((p.executed || p.cancelled) ≡ true → q ≡ p)

pub Follows-refl : (o : Option GovernanceProposal) → Follows o o
Follows-refl none = tt
Follows-refl (some p) = (refl, refl, refl, refl, refl, refl, omega arith, omega arith, λ c. refl)

Follows-trans :
    (o o' o'' : Option GovernanceProposal) → Follows o o' → Follows o' o'' → Follows o o''
Follows-trans none o' o'' f g = tt
Follows-trans (some p) none o'' f g = absurd f
Follows-trans (some p) (some q) none f g = absurd g
Follows-trans (some p) (some q) (some r) f g = (
  g.0 ∙ f.0,
  g.1 ∙ f.1,
  g.2 ∙ f.2,
  g.3 ∙ f.3,
  g.4 ∙ f.4,
  g.5 ∙ f.5,
  omega arith,
  omega arith,
  λ c. g.8 (rw (f.8 c) c) ∙ f.8 c,
)

pub Advances-Follows :
    (peer : Peer) (env : Env) (s : Governance) (id : ℕ) (o o' : Option GovernanceProposal)
    → IsTallied s
    → o ≡ s.proposal id
    → Advances peer env s id o o'
    → Follows o o'
Advances-Follows peer env s id none o' h e m = tt
Advances-Follows peer env s id (some p) o' h e (inl same) = rw same (Follows-refl (some p))
Advances-Follows peer env s id (some p) o' h e (inr (inl (q, f, made))) =
    absurd (ground (arith, (h.unborn id (omega (arith, made.0))).0))
Advances-Follows peer env s id (some p) o' h e (inr (inr (r, f, q, g, k))) = rw g (closing k)
  where
    closing :
        IsVoted env s id r q ⊎ IsEnacted peer env s r q ⊎ IsWithdrawn env s id r q
        → Follows (some p) (some q)
    closing (inl (x, c, l, v, a, n, en, w, pw, true, t, et, eq)) = ground arith
    closing (inl (x, c, l, v, a, n, en, w, pw, false, t, et, eq)) = ground arith
    closing (inr (inl k)) = ground arith
    closing (inr (inr k)) = ground arith

-- From a state with tallies that follow the log, a proposal that is stored stays stored with the
-- same number, proposer, weights, expiry, delay and quorum, its tallies never fall, and once it is
-- executed or cancelled nothing of it changes.
pub Reach-Follows :
    {s t : Governance} (id : ℕ)
    → IsTallied s
    → Reach s t
    → Follows (get_proposal s id) (get_proposal t id)
unfolding get_proposal
Reach-Follows {s} id h here = Follows-refl (s.proposal id)
Reach-Follows {s} {t} id h (next {t = u} r (invocation peer req env e)) =
    Follows-trans (s.proposal id) (u.proposal id) (t.proposal id) (Reach-Follows id h r) (
      Advances-Follows peer env u id (u.proposal id) (t.proposal id) (Reach-IsTallied r h) refl
        (ensured _ (run peer req env u) (run-Advances peer req env u) e id))
