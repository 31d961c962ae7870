-- ===== src/Together/Tests/Governed.antt =====
-- The theorems on the credit oracle under the governance contract at concrete states.
use stellar_did_credit.Base.{
  checked_add_i128, inl, inr, nat_eq, pos, put, refl, some, true, ◌∷◌, ◌≡◌,
}
use stellar_did_credit.Host.{ok}
use stellar_did_credit.CreditOracle.State.{Oracle}
use stellar_did_credit.CreditOracle.Admin.{default_weights}
use stellar_did_credit.CreditOracle.Weights
use stellar_did_credit.CreditOracle.Steps
use stellar_did_credit.CreditOracle.Tests.{live, one_credential}
use stellar_did_credit.Governance.State.{Event, Governance, propose_weights_at}
use stellar_did_credit.Governance.Steps.{execute_one, run}
use stellar_did_credit.Governance.Proposals.{execute}
use stellar_did_credit.Governance.Tests.{
  balanced, carried, signed_at, voted_twice, voted_twice-IsTallied,
}
use stellar_did_credit.Together.Peers.{answer_of, peer_of}
use stellar_did_credit.Together.Governed.{IsGovernedBy, JointReach, foreign, governs, start, step}
use stellar_did_credit.Together.Voted.{JointReach-IsGovernedBy}
use stellar_did_credit.Together.Enacting.{applied, queued}

-- The credit oracle at 9 whose administrator is the governance contract at 50.
abbrev governed : Oracle
governed = record live { admin = some 50 }

abbrev waiting : Oracle
waiting = queued balanced 116 governed

abbrev enacted : Governance
enacted = record voted_twice {
  proposal = put 1 (record carried { executed = true }) voted_twice.proposal;
  events = Event.prop_exec 1 (pos 60) (pos 40) ∷ voted_twice.events;
  calls = propose_weights_at 9 balanced ∷ voted_twice.calls;
}

abbrev changed : Oracle
changed = applied balanced waiting

executed_lem :
    run (peer_of 9 (signed_at 116) governed) (execute_one 1) (signed_at 116) voted_twice
    ≡ ok tt enacted
unfolding run execute checked_add_i128 Weights.propose_weights
executed_lem = refl

queued_lem : answer_of 9 (signed_at 116) governed (propose_weights_at 9 balanced) ≡ ok tt waiting
unfolding Weights.propose_weights
queued_lem = refl

changed_lem : Steps.run one_credential Steps.apply_config (signed_at 17396) waiting ≡ ok tt changed
unfolding Steps.run Weights.apply_weights
changed_lem = refl

JointReach-changed : JointReach 9 50 voted_twice governed enacted changed
JointReach-changed =
    step
      (step start (
        governs (execute_one 1) (signed_at 116) refl executed_lem
          (inr (propose_weights_at 9 balanced, refl, queued_lem))))
      (foreign one_credential Steps.apply_config (signed_at 17396) refl changed_lem)

governed-IsGovernedBy : IsGovernedBy 50 (some default_weights) voted_twice governed
governed-IsGovernedBy = record {
  held = (refl, refl);
  tallied = voted_twice-IsTallied;
  pending_carried = λ w e. cc;
  config_carried = inl refl;
}

JointReach-IsGovernedBy_example : IsGovernedBy 50 (some default_weights) enacted changed
JointReach-IsGovernedBy_example =
    JointReach-IsGovernedBy 9 50 (some default_weights) JointReach-changed governed-IsGovernedBy
