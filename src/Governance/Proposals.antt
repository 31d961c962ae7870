-- ===== src/Governance/Proposals.antt =====
-- The proposals in contracts/governance/src/lib.rs.
use stellar_did_credit.Base.{
  Bool, List, Option, [], checked_add, checked_add_i128, checked_mul_i128, div_ℤ, false,
  if◌then◌else◌, leb, leb_ℤ, min, nat_eq, none, not, pos, push_back, put, sat_add, some, suc, true,
  u32_max, u64_max, unwrap_or, zero, ℕ, ℤ, ◌&&◌, ◌+◌, ◌-◌, ◌==◌, ◌||◌,
}
use stellar_did_credit.Host.{
  Address, asks, expect, fail_if, gets, modify, ok_or, pure, require_auth, ◌>>=◌, ◌>>◌,
}
use stellar_did_credit.CreditOracle.Types.{ScoringWeights, is_valid}
use stellar_did_credit.Governance.State.{
  Event, Governance, GovernanceProposal, Method, Peer, emit, first_proposal_id, invalid_quorum,
  invalid_voting_period, invalid_weights, not_authorized, proposal_already_cancelled,
  proposal_already_executed, proposal_not_expired, proposal_not_found, proposal_rejected,
  quorum_not_met, timelock_not_expired,
}
use stellar_did_credit.Governance.Client

-- `match ..get(&DataKey::QuorumPercent) { .. }`
unfoldable pub quorum_of : Option ℕ → Method ℤ
quorum_of (some percent) = do
  total ← gets (λ s. s.total_registered_weight)
  product ← ok_or (checked_mul_i128 (unwrap_or total (pos 0)) (pos percent)) invalid_quorum
  pure (div_ℤ product 100)
quorum_of none = do quorum ← gets (λ s. s.quorum_required); pure (unwrap_or quorum (pos 0))

unfoldable pub create_proposal : Address → ScoringWeights → ℕ → ℕ → Method ℕ
unfolding is_valid quorum_of
create_proposal proposer weights voting_period_ledgers execution_delay_ledgers = do
  require_auth proposer
  valid ← expect (is_valid weights)
  fail_if (not valid) invalid_weights
  fail_if (voting_period_ledgers == 0) invalid_voting_period
  next ← gets (λ s. s.next_proposal_id)
  let id = unwrap_or next first_proposal_id
  ledger ← asks (λ env. env.sequence)
  expiry_ledger ← expect (checked_add u32_max ledger voting_period_ledgers)
  percent ← gets (λ s. s.quorum_percent)
  quorum_required ← quorum_of percent
  modify (λ s. record s {
    proposal =
        put id
          (record {
            id = id;
            proposer = proposer;
            proposed_weights = weights;
            votes_for = pos 0;
            votes_against = pos 0;
            expiry_ledger = expiry_ledger;
            execution_delay_ledgers = execution_delay_ledgers;
            executed = false;
            cancelled = false;
            quorum_required = quorum_required;
          })
          s.proposal;
  })
  modify (λ s. record s { proposer = put id proposer s.proposer })
  id' ← expect (checked_add u64_max id 1)
  modify (λ s. record s { next_proposal_id = some id' })
  emit (Event.prop_creat id proposer expiry_ledger)
  pure id

unfoldable pub execute : Peer → ℕ → Method (Unit {0})
unfolding Client.propose_weights
execute peer proposal_id = do
  stored ← gets (λ s. s.proposal proposal_id)
  proposal ← ok_or stored proposal_not_found
  ledger ← asks (λ env. env.sequence)
  fail_if (leb ledger proposal.expiry_ledger) proposal_not_expired
  let executable_at = sat_add u32_max proposal.expiry_ledger proposal.execution_delay_ledgers
  fail_if (leb ledger executable_at) timelock_not_expired
  fail_if proposal.executed proposal_already_executed
  fail_if proposal.cancelled proposal_already_cancelled
  fail_if (leb_ℤ proposal.votes_for proposal.votes_against) proposal_rejected
  votes ← expect (checked_add_i128 proposal.votes_for proposal.votes_against)
  fail_if (not (leb_ℤ proposal.quorum_required votes)) quorum_not_met
  oracle ← gets (λ s. s.credit_oracle)
  credit_oracle_addr ← expect oracle
  Client.propose_weights peer credit_oracle_addr proposal.proposed_weights
  modify (λ s. record s {
    proposal = put proposal_id (record proposal { executed = true }) s.proposal;
  })
  emit (Event.prop_exec proposal_id proposal.votes_for proposal.votes_against)

unfoldable pub cancel_proposal : Address → ℕ → Method (Unit {0})
cancel_proposal canceller proposal_id = do
  require_auth canceller
  stored ← gets (λ s. s.proposal proposal_id)
  proposal ← ok_or stored proposal_not_found
  fail_if proposal.executed proposal_already_executed
  fail_if proposal.cancelled proposal_already_cancelled
  admin ← gets (λ s. s.admin)
  stored_admin ← ok_or admin not_authorized
  proposer ← gets (λ s. s.proposer proposal_id)
  stored_proposer ← ok_or proposer not_authorized
  fail_if (not (canceller == stored_admin) && not (canceller == stored_proposer)) not_authorized
  modify (λ s. record s {
    proposal = put proposal_id (record proposal { cancelled = true }) s.proposal;
  })
  emit (Event.prop_canc proposal_id canceller)

unfoldable pub get_proposal : Governance → ℕ → Option GovernanceProposal
get_proposal s proposal_id = s.proposal proposal_id

-- The body of the loop of `list_proposals`.
unfoldable pub push_proposal :
    Bool → Option GovernanceProposal → List GovernanceProposal → List GovernanceProposal
push_proposal include_inactive none result = result
push_proposal include_inactive (some proposal) result =
    if include_inactive || not proposal.executed && not proposal.cancelled
    then push_back result proposal
    else result

-- The loop of `list_proposals` over `rounds` ids from `id` on.
unfoldable pub push_proposals :
    Governance → Bool → ℕ → ℕ → List GovernanceProposal → List GovernanceProposal
unfolding push_proposal
push_proposals s include_inactive zero id result = result
push_proposals s include_inactive (suc rounds) id result =
    push_proposals s include_inactive rounds (id + 1)
      (push_proposal include_inactive (s.proposal id) result)

unfoldable pub list_proposals : Governance → ℕ → ℕ → Bool → List GovernanceProposal
list_proposals s from_id limit include_inactive =
    let cap = min limit 20 in
    let next_proposal_id = unwrap_or s.next_proposal_id first_proposal_id in
    let end_id = min (sat_add u64_max from_id cap) next_proposal_id in
    if cap == 0
    then []
    else if leb next_proposal_id from_id
    then []
    else push_proposals s include_inactive (end_id - from_id) from_id []
