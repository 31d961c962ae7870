-- ===== src/Governance/Decisions.antt =====
-- What a vote may add, and how an execution ends, told by the log of votes.
use stellar_did_credit.Base.{
  Bool, Option, arith, checked_add_i128-pos, false, if◌then◌else◌, leb, leb_ℤ, min, nat_beq_iff,
  nat_eq, none, pos, pos_part, put, some, sub_i128-parts, true, u32_max, ℕ, ℤ, ◌+◌, ◌∷◌, ◌≡◌, ◌≢◌,
  ◌≤ℤ◌, ◌≤◌,
}
use stellar_did_credit.Host.{Address, Ensures, Ensures-imp, Env, Outcome, err, ok, trap}
use stellar_did_credit.Governance.State.{
  Event, Governance, GovernanceError, GovernanceProposal, Peer, Reply, aborted, failed,
  proposal_already_cancelled, proposal_already_executed, proposal_not_expired, proposal_rejected,
  propose_weights_at, quorum_not_met, returned, timelock_not_expired,
}
use stellar_did_credit.Governance.Effects.{Casts, vote-Casts}
use stellar_did_credit.Governance.Ballots.{cast_by, cast_for}
use stellar_did_credit.Governance.Tallies.{IsTallied, used_weight}
use stellar_did_credit.Governance.Proposals.{execute, get_proposal}
use stellar_did_credit.Governance.Voters.{get_voter_weight, vote}

-- If the tallies follow the log, a successful vote was authorized by the voter, adds exactly its
-- weight to the logged votes of that voter on that proposal and to those of nobody else, and all
-- of them together do not exceed the registered weight of the voter.
pub vote_within :
    (v : Address) (id : ℕ) (for : Bool) (w : ℤ) (env : Env) (s : Governance)
    → IsTallied s
    → Ensures
        (λ _ t.
          (n : ℤ) × (get_voter_weight s v ≡ some n)
          × (pos (cast_by id v t.events) ≤ℤ n)
          × (cast_by id v t.events ≡ cast_by id v s.events + pos_part w)
          × ((u : Address) → u ≢ v → cast_by id u t.events ≡ cast_by id u s.events)
          × (env.authorized v ≡ true))
        (vote v id for w env s)
unfolding get_voter_weight
vote_within v id for w env s h =
    Ensures-imp within (vote v id for w env s) (vote-Casts v id w env s for)
  where
    within :
        (t : Governance)
        → Casts env v id for w s t
        → (n : ℤ) × (s.voter_weight v ≡ some n)
          × (pos (cast_by id v t.events) ≤ℤ n)
          × (cast_by id v t.events ≡ cast_by id v s.events + pos_part w)
          × ((u : Address) → u ≢ v → cast_by id u t.events ≡ cast_by id u s.events)
          × (env.authorized v ≡ true)
    within t c =
        let used = h.tallied_by id v c.0 c.1 c.2 in
        (
          c.6,
          c.7,
          ground (
            arith,
            used,
            sub_i128-parts c.6 (used_weight s id v) c.9,
            nat_beq_iff v v,
            nat_beq_iff id id,
          ),
          ground (arith, nat_beq_iff v v, nat_beq_iff id id),
          λ u other. ground (arith, nat_beq_iff v u, other),
          c.5,
        )

-- The error that stops an execution at a ledger, for the weights of the votes on each side.
abbrev pub verdict : ℕ → GovernanceProposal → ℕ → ℕ → Option GovernanceError
verdict ledger p yes_votes no_votes =
    if leb ledger p.expiry_ledger
    then some proposal_not_expired
    else if leb ledger (min (p.expiry_ledger + p.execution_delay_ledgers) u32_max)
    then some timelock_not_expired
    else if p.executed
    then some proposal_already_executed
    else if p.cancelled
    then some proposal_already_cancelled
    else if leb yes_votes no_votes
    then some proposal_rejected
    else if leb_ℤ p.quorum_required (pos (yes_votes + no_votes))
    then none
    else some quorum_not_met

-- The end of an execution that the verdict lets pass, or not.
abbrev pub execution :
    Governance
    → ℕ
    → GovernanceProposal
    → Address
    → Option GovernanceError
    → Reply
    → Outcome GovernanceError Governance (Unit {0})
execution s id p o (some e) reply = err e
execution s id p o none returned = ok tt (record s {
  proposal = put id (record p { executed = true }) s.proposal;
  events = Event.prop_exec id p.votes_for p.votes_against ∷ s.events;
  calls = propose_weights_at o p.proposed_weights ∷ s.calls;
})
execution s id p o none (failed e) = trap
execution s id p o none aborted = trap

-- On a state with tallies that follow the log, and votes that sum to at most the largest `i128`,
-- `execute` of a stored proposal on a linked contract ends as the verdict on the logged votes
-- says: with the first error of not expired, time lock, executed, cancelled, rejected and quorum
-- that applies; else it marks the proposal executed, logs it and calls the oracle once, if the
-- oracle takes the weights, and traps if it does not.
pub execute_ends :
    (peer : Peer) (id : ℕ) (env : Env) (s : Governance) (p : GovernanceProposal) (o : Address)
    → IsTallied s
    → get_proposal s id ≡ some p
    → s.credit_oracle ≡ some o
    → cast_for id true s.events + cast_for id false s.events
      ≤ 170141183460469231731687303715884105727
    → execute peer id env s
      ≡ execution s id p o
          (verdict env.sequence p (cast_for id true s.events) (cast_for id false s.events))
          (peer (propose_weights_at o p.proposed_weights))
unfolding execute get_proposal
execute_ends peer id env s p o h e linked small = ground (
  arith,
  h.tallied_for id p e,
  h.tallied_against id p e,
  checked_add_i128-pos (cast_for id true s.events) (cast_for id false s.events),
)
