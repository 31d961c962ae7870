-- ===== src/Governance/Replay.antt =====
-- The state that an indexer of the events of the governance contract rebuilds.
use mathlib.Core.Option
use stellar_did_credit.Base.{
  Bool, List, Option, [], add_i128-eq, arith, eq_ℤ, false, if◌then◌else◌, nat_beq_iff, nat_eq, none,
  pos, refl, some, true, ℕ, ℤ, ◌+ℤ◌, ◌==◌, ◌∷◌, ◌≡◌,
}
use stellar_did_credit.Host.{Address, Env, ensured}
use stellar_did_credit.CreditOracle.Types.{ScoringWeights}
use stellar_did_credit.Governance.State.{Event, Governance, GovernanceProposal, Peer, deployed}
use stellar_did_credit.Governance.Effects.{Casts, Creates, Settled, Weighs, weight_set}
use stellar_did_credit.Governance.Outcomes.{
  Cancels, Cleans, Effect, Executes, Starts, cancels, casts, cleans, creates, executes, run-Effect,
  settles, starts, weighs,
}
use stellar_did_credit.Governance.Steps.{Reach, here, invocation, next, run}
use stellar_did_credit.Governance.Proposals.{get_proposal}
use stellar_did_credit.Governance.Voters.{get_voter_weight}

pub data Phase : Type 0 where
  voting enacted withdrawn : Phase

-- What the events tell of a proposal.
pub record Summary : Type 0 where
  pub proposer : Address
  pub expiry_ledger : ℕ
  pub votes_for : ℤ
  pub votes_against : ℤ
  pub phase : Phase

abbrev pub summary : GovernanceProposal → Summary
summary p = record {
  proposer = p.proposer;
  expiry_ledger = p.expiry_ledger;
  votes_for = p.votes_for;
  votes_against = p.votes_against;
  phase = if p.executed then enacted else if p.cancelled then withdrawn else voting;
}

abbrev pub count_vote : Bool → ℤ → Summary → Summary
count_vote true w r = record r { votes_for = r.votes_for +ℤ w }
count_vote false w r = record r { votes_against = r.votes_against +ℤ w }

abbrev pub end_as : Phase → Summary → Summary
end_as phase r = record r { phase = phase }

-- The proposal with a number, from the log alone.
abbrev pub replay : ℕ → List Event → Option Summary
replay id [] = none
replay id (Event.prop_creat j a l ∷ es) =
    let rest = replay id es in
    if j == id
    then some (record {
      proposer = a;
      expiry_ledger = l;
      votes_for = pos 0;
      votes_against = pos 0;
      phase = voting;
    })
    else rest
replay id (Event.voted j v for w ∷ es) =
    let rest = replay id es in if j == id then Option.map (count_vote for w) rest else rest
replay id (Event.prop_exec j f a ∷ es) =
    let rest = replay id es in if j == id then Option.map (end_as enacted) rest else rest
replay id (Event.prop_canc j a ∷ es) =
    let rest = replay id es in if j == id then Option.map (end_as withdrawn) rest else rest
replay id (e ∷ es) = replay id es

-- The weight of a voter, from the log alone.
abbrev pub replay_weight : Address → List Event → Option ℤ
replay_weight u [] = none
replay_weight u (Event.voter_reg v w ∷ es) =
    let rest = replay_weight u es in if v == u then some w else rest
replay_weight u (Event.voter_upd v w ∷ es) =
    let rest = replay_weight u es in
    if v == u then (if eq_ℤ w (pos 0) then none else some w) else rest
replay_weight u (Event.voter_der v ∷ es) =
    let rest = replay_weight u es in if v == u then none else rest
replay_weight u (e ∷ es) = replay_weight u es

-- The log tells each proposal and each registered weight.
pub record IsReplayed (s : Governance) : Type 0 where
  pub proposals : (id : ℕ) → Option.map summary (get_proposal s id) ≡ replay id s.events
  pub weights : (u : Address) → get_voter_weight s u ≡ replay_weight u s.events

replay-weight_set :
    (id : ℕ) (e : Event) (es : List Event) (x : Address × Option ℤ)
    → weight_set e ≡ some x
    → replay id (e ∷ es) ≡ replay id es
replay-weight_set id (Event.prop_creat j a l) es x h = cc
replay-weight_set id (Event.voted j v for w) es x h = cc
replay-weight_set id (Event.prop_exec j f a) es x h = cc
replay-weight_set id (Event.prop_canc j a) es x h = cc
replay-weight_set id e es x h = refl

replay_weight-weight_set :
    (u : Address) (e : Event) (es : List Event) (v : Address) (o : Option ℤ)
    → weight_set e ≡ some (v, o)
    → replay_weight u (e ∷ es) ≡ (if v == u then o else replay_weight u es)
replay_weight-weight_set u (Event.voter_reg v w) es x o h = ground arith
replay_weight-weight_set u (Event.voter_upd v w) es x o h = ground arith
replay_weight-weight_set u (Event.voter_der v) es x o h = ground arith
replay_weight-weight_set u (Event.initialized a b) es x o h = cc
replay_weight-weight_set u e es x o h = cc

module _ (env : Env) (s t : Governance) (h : IsReplayed s) where
  Starts-IsReplayed : Starts env s t → IsReplayed t
  unfolding get_proposal get_voter_weight
  Starts-IsReplayed c = record {
    proposals = λ id. ground (arith, h.proposals id);
    weights = λ u. ground (arith, h.weights u);
  }

  settles-IsReplayed : Settled s t → IsReplayed t
  unfolding get_proposal get_voter_weight
  settles-IsReplayed c = record {
    proposals = λ id. ground (arith, h.proposals id);
    weights = λ u. ground (arith, h.weights u);
  }

  Weighs-IsReplayed : (v : Address) (w : ℤ) → Weighs env v w s t → IsReplayed t
  unfolding get_proposal get_voter_weight
  Weighs-IsReplayed v w c = record {
    proposals =
        λ id. rw c.7 (ground (arith, h.proposals id, replay-weight_set id c.6 s.events _ c.8));
    weights = λ u.
        rw (c.1, c.7)
          (ground (
            arith,
            h.weights u,
            nat_beq_iff u v,
            nat_beq_iff v u,
            replay_weight-weight_set u c.6 s.events v _ c.8,
          ));
  }

  Creates-IsReplayed :
      (a : Address) (w : ScoringWeights) (period delay id : ℕ)
      → Creates env a w period delay id s t
      → IsReplayed t
  unfolding get_proposal get_voter_weight
  Creates-IsReplayed a w period delay id c = record {
    proposals = λ j. ground (arith, h.proposals j);
    weights = λ u. ground (arith, h.weights u);
  }

  Casts-IsReplayed :
      (v : Address) (id : ℕ) (for : Bool) (w : ℤ) → Casts env v id for w s t → IsReplayed t
  unfolding get_proposal get_voter_weight
  Casts-IsReplayed v id true w c = record {
    proposals = λ j. ground (arith, h.proposals j, add_i128-eq c.0.votes_for w c.15);
    weights = λ u. ground (arith, h.weights u);
  }
  Casts-IsReplayed v id false w c = record {
    proposals = λ j. ground (arith, h.proposals j, add_i128-eq c.0.votes_against w c.15);
    weights = λ u. ground (arith, h.weights u);
  }

  Executes-IsReplayed : (peer : Peer) (id : ℕ) → Executes peer env id s t → IsReplayed t
  unfolding get_proposal get_voter_weight
  Executes-IsReplayed peer id c = record {
    proposals = λ j. ground (arith, h.proposals j);
    weights = λ u. ground (arith, h.weights u);
  }

  Cancels-IsReplayed : (a : Address) (id : ℕ) → Cancels env a id s t → IsReplayed t
  unfolding get_proposal get_voter_weight
  Cancels-IsReplayed a id c = record {
    proposals = λ j. ground (arith, h.proposals j);
    weights = λ u. ground (arith, h.weights u);
  }

  Cleans-IsReplayed : (id : ℕ) (vs : List Address) → Cleans env id vs s t → IsReplayed t
  unfolding get_proposal get_voter_weight
  Cleans-IsReplayed id vs c = record {
    proposals = λ j. ground (arith, h.proposals j);
    weights = λ u. ground (arith, h.weights u);
  }

Effect-IsReplayed :
    (peer : Peer) (env : Env) (s t : Governance) → Effect peer env s t → IsReplayed s → IsReplayed t
Effect-IsReplayed peer env s t (starts c) h = Starts-IsReplayed env s t h c
Effect-IsReplayed peer env s t (settles c) h = settles-IsReplayed env s t h c
Effect-IsReplayed peer env s t (weighs v w c) h = Weighs-IsReplayed env s t h v w c
Effect-IsReplayed peer env s t (creates a w period delay id c) h =
    Creates-IsReplayed env s t h a w period delay id c
Effect-IsReplayed peer env s t (casts v id for w c) h = Casts-IsReplayed env s t h v id for w c
Effect-IsReplayed peer env s t (executes id c) h = Executes-IsReplayed env s t h peer id c
Effect-IsReplayed peer env s t (cancels a id c) h = Cancels-IsReplayed env s t h a id c
Effect-IsReplayed peer env s t (cleans id vs c) h = Cleans-IsReplayed env s t h id vs c

Reach-IsReplayed : {s t : Governance} → Reach s t → IsReplayed s → IsReplayed t
Reach-IsReplayed here h = h
Reach-IsReplayed {t = t} (next {t = u} r (invocation peer req env e)) h =
    Effect-IsReplayed peer env u t (ensured _ (run peer req env u) (run-Effect peer req env u) e)
      (Reach-IsReplayed r h)

-- In every state that a fresh contract can reach, the events alone determine what `get_proposal`
-- returns of the proposer, the expiry, both tallies and the phase of every proposal, and what
-- `get_voter_weight` returns for every address.
pub Reach-deployed-IsReplayed : {t : Governance} → Reach deployed t → IsReplayed t
unfolding get_proposal get_voter_weight
Reach-deployed-IsReplayed r =
    Reach-IsReplayed r (record { proposals = λ id. refl; weights = λ u. refl })
