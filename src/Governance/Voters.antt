-- ===== src/Governance/Voters.antt =====
-- The register of voters, and the votes, in contracts/governance/src/lib.rs.
use stellar_did_credit.Base.{
  Bool, List, Option, [], checked_add_i128, checked_sub_i128, eq_ℤ, if◌then◌else◌, leb_ℤ, length,
  ltb, nat_eq, not, pair_eq, pos, put, remove, some, unwrap_or, ℕ, ℤ, ◌∷◌,
}
use stellar_did_credit.Host.{
  Address, asks, expect, fail_if, gets, modify, ok_or, pure, require_auth, ◌>>=◌, ◌>>◌,
}
use stellar_did_credit.Governance.State.{
  Event, Governance, GovernanceProposal, Method, emit, insufficient_vote_weight,
  invalid_vote_weight, proposal_already_cancelled, proposal_already_executed, proposal_expired,
  proposal_not_found, vote_tally_overflow, voter_not_registered,
}
use stellar_did_credit.Governance.Admin.{check_admin}

-- The total becomes `total - old_weight + weight`.
unfoldable pub replace_total : ℤ → ℤ → Method (Unit {0})
replace_total old_weight weight = do
  stored ← gets (λ s. s.total_registered_weight)
  rest ← expect (checked_sub_i128 (unwrap_or stored (pos 0)) old_weight)
  total ← expect (checked_add_i128 rest weight)
  modify (λ s. record s { total_registered_weight = some total })

unfoldable pub register_voter : Address → Address → ℤ → Method (Unit {0})
unfolding check_admin replace_total
register_voter admin voter weight = do
  check_admin admin
  fail_if (leb_ℤ weight (pos 0)) invalid_vote_weight
  require_auth admin
  old ← gets (λ s. s.voter_weight voter)
  modify (λ s. record s { voter_weight = put voter weight s.voter_weight })
  replace_total (unwrap_or old (pos 0)) weight
  emit (Event.voter_reg voter weight)

unfoldable pub update_voter_weight : Address → Address → ℤ → Method (Unit {0})
unfolding check_admin replace_total
update_voter_weight admin voter weight = do
  check_admin admin
  fail_if (not (leb_ℤ (pos 0) weight)) invalid_vote_weight
  require_auth admin
  old ← gets (λ s. s.voter_weight voter)
  if eq_ℤ weight (pos 0)
      then modify (λ s. record s { voter_weight = remove voter s.voter_weight })
      else modify (λ s. record s { voter_weight = put voter weight s.voter_weight })
  replace_total (unwrap_or old (pos 0)) weight
  emit (Event.voter_upd voter weight)

unfoldable pub deregister_voter : Address → Address → Method (Unit {0})
unfolding check_admin
deregister_voter admin voter = do
  check_admin admin
  require_auth admin
  old ← gets (λ s. s.voter_weight voter)
  modify (λ s. record s { voter_weight = remove voter s.voter_weight })
  stored ← gets (λ s. s.total_registered_weight)
  total ← expect (checked_sub_i128 (unwrap_or stored (pos 0)) (unwrap_or old (pos 0)))
  modify (λ s. record s { total_registered_weight = some total })
  emit (Event.voter_der voter)

-- The proposal with a vote added to one of its tallies.
unfoldable pub add_vote : Bool → ℤ → GovernanceProposal → Method GovernanceProposal
add_vote vote_for vote_weight proposal =
    if vote_for
    then (do
      n ← ok_or (checked_add_i128 proposal.votes_for vote_weight) vote_tally_overflow
      pure (record proposal { votes_for = n }))
    else (do
      n ← ok_or (checked_add_i128 proposal.votes_against vote_weight) vote_tally_overflow
      pure (record proposal { votes_against = n }))

unfoldable pub vote : Address → ℕ → Bool → ℤ → Method (Unit {0})
unfolding add_vote
vote voter proposal_id vote_for vote_weight = do
  require_auth voter
  fail_if (leb_ℤ vote_weight (pos 0)) invalid_vote_weight
  weight ← gets (λ s. s.voter_weight voter)
  total_weight ← ok_or weight voter_not_registered
  used ← gets (λ s. s.vote_weight_used (proposal_id, voter))
  available_weight ← expect (checked_sub_i128 total_weight (unwrap_or used (pos 0)))
  fail_if (not (leb_ℤ vote_weight available_weight)) insufficient_vote_weight
  stored ← gets (λ s. s.proposal proposal_id)
  proposal ← ok_or stored proposal_not_found
  ledger ← asks (λ env. env.sequence)
  fail_if (ltb proposal.expiry_ledger ledger) proposal_expired
  fail_if proposal.executed proposal_already_executed
  fail_if proposal.cancelled proposal_already_cancelled
  proposal' ← add_vote vote_for vote_weight proposal
  new_used_weight ← expect (checked_add_i128 (unwrap_or used (pos 0)) vote_weight)
  modify (λ s. record s {
    vote_weight_used = put (proposal_id, voter) new_used_weight s.vote_weight_used;
  })
  modify (λ s. record s { proposal = put proposal_id proposal' s.proposal })
  emit (Event.voted proposal_id voter vote_for vote_weight)

-- The loop of `cleanup_proposal_votes`.
unfoldable pub remove_votes : ℕ → List Address → Method (Unit {0})
remove_votes proposal_id [] = pure tt
remove_votes proposal_id (voter ∷ voters) = do
  modify (λ s. record s { vote_weight_used = remove (proposal_id, voter) s.vote_weight_used })
  remove_votes proposal_id voters

unfoldable pub cleanup_proposal_votes : Address → ℕ → List Address → Method (Unit {0})
unfolding check_admin
cleanup_proposal_votes admin proposal_id voters = do
  check_admin admin
  require_auth admin
  stored ← gets (λ s. s.proposal proposal_id)
  proposal ← ok_or stored proposal_not_found
  if not proposal.executed
      then pure tt
      else remove_votes proposal_id voters >> emit (Event.v_cln proposal_id (length voters))

unfoldable pub get_voter_weight : Governance → Address → Option ℤ
get_voter_weight s voter = s.voter_weight voter

unfoldable pub get_vote_weight_used : Governance → ℕ → Address → ℤ
get_vote_weight_used s proposal_id voter =
    unwrap_or (s.vote_weight_used (proposal_id, voter)) (pos 0)

unfoldable pub get_available_vote_weight : ℕ → Address → Method ℤ
get_available_vote_weight proposal_id voter = do
  total ← gets (λ s. s.voter_weight voter)
  used ← gets (λ s. s.vote_weight_used (proposal_id, voter))
  expect (checked_sub_i128 (unwrap_or total (pos 0)) (unwrap_or used (pos 0)))
