-- ===== src/Governance/Tallies.antt =====
-- The tallies of the proposals against the log of votes, after every request.
use stellar_did_credit.Governance.Admin.{initialize}
use stellar_did_credit.Governance.Steps.{Reach, here, invocation, next, run}
use stellar_did_credit.Governance.Outcomes.{
  Cleans, Effect, Starts, cancels, casts, cleans, creates, executes, initialize-Starts, removed,
  run-Effect, settles, starts, weighs,
}
use stellar_did_credit.Base.{
  List, Map, [], arith, false, inr, nat_eq, pair_eq, put, refl, remove, some, true, ℕ, ℤ, ◌∙◌, ◌∷◌,
  ◌≡◌,
}
use stellar_did_credit.Host.{Address, Ensures, Ensures-imp, Env, ensured, ok}
use stellar_did_credit.CreditOracle.Types.{}
use stellar_did_credit.Governance.State.{Event, Governance, GovernanceProposal, Peer, deployed}
use stellar_did_credit.Governance.Effects.{Settled-Quiet, Weighs-Quiet, is_vote}
use stellar_did_credit.Governance.Ballots.{Quiet-SameVotes}
pub use stellar_did_credit.Governance.TallySteps.{IsTallied, IsUnborn, next_id, used_weight}
use stellar_did_credit.Governance.TallySteps.{
  Casts-IsTallied, Creates-IsTallied, IsTallied, IsTallied-same,
}

-- Closing a proposal that is not executed: executing or cancelling it.
closes-IsTallied :
    (id : ℕ) (p q : GovernanceProposal) (e : Event) (s t : Governance)
    → s.proposal id ≡ some p
    → p.executed ≡ false
    → is_vote e ≡ false
    → q.votes_for ≡ p.votes_for
    → q.votes_against ≡ p.votes_against
    → t.admin ≡ s.admin
    → t.next_proposal_id ≡ s.next_proposal_id
    → t.vote_weight_used ≡ s.vote_weight_used
    → t.proposal ≡ put id q s.proposal
    → t.events ≡ e ∷ s.events
    → IsTallied s
    → IsTallied t
closes-IsTallied id p q e s t ep live quiet f a adm nxt used prop log h =
    let v = Quiet-SameVotes s t (inr (e, log, quiet)) in
    record {
      started = ground (arith, h.started);
      unborn = λ j le.
          let g = h.unborn j (ground arith) in
          let other : (j ≡ id) → ⊥ = λ e. ground arith in
          (
            ground (arith, g.0, other),
            λ side. (v j).0 side ∙ g.1 side,
            λ u. ((v j).1 u ∙ (g.2 u).0, ground (arith, g.2 u)),
          );
      tallied_for = λ j r e. ground (arith, h.tallied_for j r, h.tallied_for id p, (v j).0 true);
      tallied_against =
          λ j r e. ground (arith, h.tallied_against j r, h.tallied_against id p, (v j).0 false);
      tallied_by = λ j u r e x. ground (arith, h.tallied_by j u r, h.tallied_by id u p, (v j).1 u);
    }

-- A cleanup of other proposals, or of an executed one.
removed_other :
    (id : ℕ) (vs : List Address) (used : Map (ℕ × Address) ℤ) (j : ℕ) (u : Address)
    → (j ≡ id → ⊥)
    → removed id vs used (j, u) ≡ used (j, u)
removed_other id [] used j u other = refl
removed_other id (v ∷ vs) used j u other =
    removed_other id vs (remove (id, v) used) j u other ∙ ground arith

Cleans-IsTallied :
    (env : Env) (id : ℕ) (vs : List Address) (s t : Governance)
    → Cleans env id vs s t
    → IsTallied s
    → IsTallied t
Cleans-IsTallied env id vs s t c h = record {
  started = ground (arith, h.started);
  unborn = λ j le.
      let g = h.unborn j (ground arith) in
      let other : (j ≡ id) → ⊥ = λ e. ground (arith, g.0) in
      (
        ground (arith, g.0),
        λ side. ground (arith, g.1 side),
        λ u. ground (arith, g.2 u, removed_other id vs s.vote_weight_used j u other),
      );
  tallied_for = λ j p e. ground (arith, h.tallied_for j p);
  tallied_against = λ j p e. ground (arith, h.tallied_against j p);
  tallied_by = λ j u p e x.
      let other : (j ≡ id) → ⊥ = λ same. ground arith in
      ground (arith, h.tallied_by j u p, removed_other id vs s.vote_weight_used j u other);
}

pub Effect-IsTallied :
    (peer : Peer) (env : Env) (s t : Governance) → Effect peer env s t → IsTallied s → IsTallied t
Effect-IsTallied peer env s t (starts c) h = absurd (ground (arith, h.started))
Effect-IsTallied peer env s t (settles c) h =
    IsTallied-same s t c.0 (Quiet-SameVotes s t (Settled-Quiet s t c)) h
Effect-IsTallied peer env s t (weighs v w c) h =
    IsTallied-same s t c.0 (Quiet-SameVotes s t (Weighs-Quiet env v w s t c)) h
Effect-IsTallied peer env s t (creates a w period delay id c) h =
    Creates-IsTallied env a w period delay id s t c h
Effect-IsTallied peer env s t (casts v id for w c) h = Casts-IsTallied env v id w s t h for c
Effect-IsTallied peer env s t (executes id c) h =
    closes-IsTallied id c.0 (record c.0 { executed = true })
      (Event.prop_exec id c.0.votes_for c.0.votes_against) s t c.1 c.2 refl refl refl (ground arith)
      (ground arith) (ground arith) (ground arith) (ground arith) h
Effect-IsTallied peer env s t (cancels a id c) h =
    closes-IsTallied id c.0 (record c.0 { cancelled = true }) (Event.prop_canc id a) s t c.1 c.2
      refl refl refl (ground arith) (ground arith) (ground arith) (ground arith) (ground arith) h
Effect-IsTallied peer env s t (cleans id vs c) h = Cleans-IsTallied env id vs s t c h

pub Reach-IsTallied : {s t : Governance} → Reach s t → IsTallied s → IsTallied t
Reach-IsTallied here h = h
Reach-IsTallied {t = t} (next {t = u} r (invocation peer req env e)) h =
    Effect-IsTallied peer env u t (ensured _ (run peer req env u) (run-Effect peer req env u) e)
      (Reach-IsTallied r h)

initialize-IsTallied :
    (a o : Address) (q : ℤ) (env : Env) → Ensures (λ _. IsTallied) (initialize a o q env deployed)
initialize-IsTallied a o q env =
    Ensures-imp tallied (initialize a o q env deployed) (initialize-Starts a o q env deployed)
  where
    tallied : (s : Governance) → Starts env deployed s → IsTallied s
    tallied s c = rw c.6 (record {
      started = refl;
      unborn = λ id le. (refl, λ side. refl, λ u. (refl, refl));
      tallied_for = λ id p e. cc;
      tallied_against = λ id p e. cc;
      tallied_by = λ id u p e x. cc;
    })

-- In every state that is reached from a fresh contract by `initialize` and then any requests, both
-- tallies of every proposal are the sums of the logged votes on that side, the weight that a voter
-- used on a proposal that is not executed is the sum of the logged votes of that voter, and
-- numbers from the counter on have no proposal, no logged vote and no used weight.
pub Reach-initialize-IsTallied :
    (a o : Address) (q : ℤ) (env : Env) {s t : Governance}
    → initialize a o q env deployed ≡ ok tt s
    → Reach s t
    → IsTallied t
Reach-initialize-IsTallied a o q env e r =
    Reach-IsTallied r
      (ensured (λ _. IsTallied) (initialize a o q env deployed) (initialize-IsTallied a o q env) e)
