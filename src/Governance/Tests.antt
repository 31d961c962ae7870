-- ===== src/Governance/Tests.antt =====
-- The theorems on the governance contract at concrete states.
use stellar_did_credit.Governance.Permanence.{Follows, Reach-Follows}
use stellar_did_credit.Governance.Weighing.{IsWeighed, Reach-deployed-IsWeighed}
use stellar_did_credit.Governance.Tallies.{IsTallied, Reach-IsTallied, Reach-initialize-IsTallied}
use stellar_did_credit.Governance.Replay.{IsReplayed, Reach-deployed-IsReplayed}
use stellar_did_credit.Governance.Lifecycle.{Advances, run-Advances}
use stellar_did_credit.Governance.Decisions.{execute_ends, execution, vote_within}
use stellar_did_credit.Governance.Ballots.{cast_by}
use stellar_did_credit.Governance.Proposals.{create_proposal, execute, get_proposal}
use stellar_did_credit.Base.{
  [], arith, checked_add_i128, checked_sub_i128, false, nat_beq, nat_eq, none, not, pair_eq, pos,
  put, refl, some, true, ℕ, ℤ, ◌*◌, ◌+◌, ◌∷◌, ◌≡◌, ◌≢◌, ◌≤ℤ◌,
}
use stellar_did_credit.Host.{Address, Ensures, Env, ok}
use stellar_did_credit.CreditOracle.Types.{ScoringWeights}
use stellar_did_credit.Governance.State.{
  Event, Governance, GovernanceProposal, Peer, deployed, returned,
}
use stellar_did_credit.Governance.Admin.{initialize}
use stellar_did_credit.Governance.Voters.{get_voter_weight, register_voter, vote}
use stellar_did_credit.Governance.Steps.{
  Reach, cast, create, here, initialize_with, invocation, next, register, run,
}

-- Everybody but the governance contract itself, at 50, authorized the invocation.
abbrev pub signed_at : ℕ → Env
signed_at ledger = record {
  sequence = ledger;
  timestamp = 5 * ledger;
  authorized = λ a. not (nat_beq a 50);
  strkey = λ _. [];
  current_contract = 50;
}

abbrev pub taking : Peer
taking c = returned

abbrev pub balanced : ScoringWeights
balanced = record { vc_weight = 50; tx_weight = 30; repayment_weight = 20 }

-- Administrator 1 and credit oracle 9.
abbrev pub launched : Governance
launched = record deployed {
  admin = some 1;
  credit_oracle = some 9;
  next_proposal_id = some 1;
  quorum_required = some (pos 10);
  events = Event.initialized 1 9 ∷ [];
}

abbrev pub one_voter : Governance
one_voter = record launched {
  voter_weight = put 2 (pos 60) launched.voter_weight;
  total_registered_weight = some (pos 60);
  events = Event.voter_reg 2 (pos 60) ∷ launched.events;
}

abbrev pub two_voters : Governance
two_voters = record one_voter {
  voter_weight = put 3 (pos 40) one_voter.voter_weight;
  total_registered_weight = some (pos 100);
  events = Event.voter_reg 3 (pos 40) ∷ one_voter.events;
}

-- Proposal 1, open until ledger 105.
abbrev pub first_proposal : GovernanceProposal
first_proposal = record {
  id = 1;
  proposer = 2;
  proposed_weights = balanced;
  votes_for = pos 0;
  votes_against = pos 0;
  expiry_ledger = 105;
  execution_delay_ledgers = 10;
  executed = false;
  cancelled = false;
  quorum_required = pos 10;
}

abbrev pub proposed : Governance
proposed = record two_voters {
  proposal = put 1 first_proposal two_voters.proposal;
  proposer = put 1 2 two_voters.proposer;
  next_proposal_id = some 2;
  events = Event.prop_creat 1 2 105 ∷ two_voters.events;
}

abbrev pub voted_once : Governance
voted_once = record proposed {
  proposal = put 1 (record first_proposal { votes_for = pos 60 }) proposed.proposal;
  vote_weight_used = put (1, 2) (pos 60) proposed.vote_weight_used;
  events = Event.voted 1 2 true (pos 60) ∷ proposed.events;
}

abbrev pub carried : GovernanceProposal
carried = record first_proposal { votes_for = pos 60; votes_against = pos 40 }

abbrev pub voted_twice : Governance
voted_twice = record voted_once {
  proposal = put 1 carried voted_once.proposal;
  vote_weight_used = put (1, 3) (pos 40) voted_once.vote_weight_used;
  events = Event.voted 1 3 false (pos 40) ∷ voted_once.events;
}

launched_lem : initialize 1 9 (pos 10) (signed_at 1) deployed ≡ ok tt launched
unfolding initialize
launched_lem = refl

one_voter_lem : run taking (register 1 2 (pos 60)) (signed_at 2) launched ≡ ok tt one_voter
unfolding run register_voter checked_add_i128 checked_sub_i128
one_voter_lem = refl

two_voters_lem : run taking (register 1 3 (pos 40)) (signed_at 2) one_voter ≡ ok tt two_voters
unfolding run register_voter checked_add_i128 checked_sub_i128
two_voters_lem = refl

proposed_lem : run taking (create 2 balanced 100 10) (signed_at 5) two_voters ≡ ok tt proposed
unfolding run create_proposal
proposed_lem = refl

voted_once_lem : run taking (cast 2 1 true (pos 60)) (signed_at 50) proposed ≡ ok tt voted_once
unfolding run vote checked_add_i128 checked_sub_i128
voted_once_lem = refl

voted_twice_lem : run taking (cast 3 1 false (pos 40)) (signed_at 60) voted_once ≡ ok tt voted_twice
unfolding run vote checked_add_i128 checked_sub_i128
voted_twice_lem = refl

Reach-proposed : Reach launched proposed
Reach-proposed =
    next
      (next (next here (invocation taking (register 1 2 (pos 60)) (signed_at 2) one_voter_lem))
        (invocation taking (register 1 3 (pos 40)) (signed_at 2) two_voters_lem))
      (invocation taking (create 2 balanced 100 10) (signed_at 5) proposed_lem)

Reach-voted : Reach proposed voted_twice
Reach-voted =
    next (next here (invocation taking (cast 2 1 true (pos 60)) (signed_at 50) voted_once_lem))
      (invocation taking (cast 3 1 false (pos 40)) (signed_at 60) voted_twice_lem)

Reach-launched : Reach deployed launched
unfolding run
Reach-launched =
    next here (invocation taking (initialize_with 1 9 (pos 10)) (signed_at 1) launched_lem)

-- One relation after the other.
Reach-append : {s t u : Governance} → Reach s t → Reach t u → Reach s u
Reach-append r here = r
Reach-append r (next q st) = next (Reach-append r q) st

pub proposed-IsTallied : IsTallied proposed
proposed-IsTallied =
    Reach-initialize-IsTallied 1 9 (pos 10) (signed_at 1) launched_lem Reach-proposed

pub voted_twice-IsTallied : IsTallied voted_twice
voted_twice-IsTallied = Reach-IsTallied Reach-voted proposed-IsTallied

Reach-initialize-IsTallied_example : IsTallied voted_twice
Reach-initialize-IsTallied_example =
    Reach-initialize-IsTallied 1 9 (pos 10) (signed_at 1) launched_lem
      (Reach-append Reach-proposed Reach-voted)

Reach-deployed-IsWeighed_example : IsWeighed two_voters
Reach-deployed-IsWeighed_example = Reach-deployed-IsWeighed (
    next
      (next Reach-launched (invocation taking (register 1 2 (pos 60)) (signed_at 2) one_voter_lem))
      (invocation taking (register 1 3 (pos 40)) (signed_at 2) two_voters_lem))

Reach-deployed-IsReplayed_example : IsReplayed voted_twice
Reach-deployed-IsReplayed_example =
    Reach-deployed-IsReplayed
      (Reach-append Reach-launched (Reach-append Reach-proposed Reach-voted))

run-Advances_example :
    Ensures
      (λ _ t.
        (id : ℕ)
        → Advances taking (signed_at 60) voted_once id (voted_once.proposal id) (t.proposal id))
      (run taking (cast 3 1 false (pos 40)) (signed_at 60) voted_once)
run-Advances_example = run-Advances taking (cast 3 1 false (pos 40)) (signed_at 60) voted_once

Reach-Follows_example : Follows (some first_proposal) (some carried)
unfolding get_proposal
Reach-Follows_example = Reach-Follows 1 proposed-IsTallied Reach-voted

vote_within_example :
    Ensures
      (λ _ t.
        (n : ℤ) × (get_voter_weight voted_once 3 ≡ some n)
        × (pos (cast_by 1 3 t.events) ≤ℤ n)
        × (cast_by 1 3 t.events ≡ cast_by 1 3 voted_once.events + 40)
        × ((u : Address) → u ≢ 3 → cast_by 1 u t.events ≡ cast_by 1 u voted_once.events)
        × ((signed_at 60).authorized 3 ≡ true))
      (vote 3 1 false (pos 40) (signed_at 60) voted_once)
vote_within_example = vote_within 3 1 false (pos 40) (signed_at 60) voted_once (
    Reach-IsTallied
      (next here (invocation taking (cast 2 1 true (pos 60)) (signed_at 50) voted_once_lem))
      proposed-IsTallied)

execute_ends_example :
    execute taking 1 (signed_at 116) voted_twice ≡ execution voted_twice 1 carried 9 none returned
unfolding get_proposal
execute_ends_example =
    execute_ends taking 1 (signed_at 116) voted_twice carried 9 voted_twice-IsTallied refl refl
      (omega arith)
