-- ===== src/Together/Tests.antt =====
-- The theorems on the contracts together at concrete states.
pub mod Governed
pub mod Inputs
use stellar_did_credit.CreditOracle.Inputs.{no_repayments}
use stellar_did_credit.Base.{
  Bool, List, arith, false, nat_eq, none, pos, put, refl, some, true, ◌≡◌,
}
use stellar_did_credit.Host.{Address, committed, ok}
use stellar_did_credit.CreditOracle.Types.{ScoreRecord}
use stellar_did_credit.CreditOracle.State.{Oracle}
use stellar_did_credit.CreditOracle.Reading.{get_score}
use stellar_did_credit.CreditOracle.Compute.{compute_score, load_repayment}
use stellar_did_credit.CreditOracle.Tests.{live}
use stellar_did_credit.RevocationRegistry.Tests.{
  Reach-after_batch, after_batch, after_revoke-IsConsistent, is_revoked_500,
}
use stellar_did_credit.Credential.{IdentityVcRecord}
use stellar_did_credit.IdentityOracle.State.{Identity}
use stellar_did_credit.IdentityOracle.Identities.{deactivate_identity}
use stellar_did_credit.IdentityOracle.Queries.{get_vc_details, verify_vc}
use stellar_did_credit.IdentityOracle.Active.{has_hash}
use stellar_did_credit.IdentityOracle.Tests.{ledger_at, linked, revoked_600}
use stellar_did_credit.Together.{client_of, deactivation_ages_score}
use stellar_did_credit.Together.Revocation.{registry_of, revoked_never_verifies}

abbrev deactivated : Identity
deactivated = committed linked (deactivate_identity 10 (ledger_at 60) linked)

deactivate_linked : deactivate_identity 10 (ledger_at 60) linked ≡ ok 2 deactivated
unfolding deactivate_identity
deactivate_linked = refl

abbrev scored : ScoreRecord
scored = record {
  score = 487;
  last_updated = 250;
  vc_count = 1;
  repayment_rate = 7500;
  tx_volume_30d = pos 4000000000;
  previous_score = none;
  computed_at_ledger = 50;
  stale = false;
}

abbrev credit : Oracle
credit = record live { score = put 10 scored (λ _. none); repayment_record = λ _. none }

readable : load_repayment 10 (ledger_at 70) credit ≡ ok no_repayments credit
unfolding load_repayment
readable = refl

deactivation_ages_score_example :
    (get_score (client_of revoked_600 (ledger_at 70) deactivated) (ledger_at 70) credit 10
      ≡ some (record scored { stale = true }))
    × (compute_score (client_of revoked_600 (ledger_at 70) deactivated) 10 (ledger_at 70) credit
        ≡ ok 300 credit)
deactivation_ages_score_example =
    deactivation_ages_score revoked_600 10 (ledger_at 60) (ledger_at 70) linked credit (omega arith)
      deactivate_linked refl refl (omega arith) refl refl readable

abbrev allow : Address → Address → Bool
allow registry oracle = true

revoked_never_verifies_example :
    (verify_vc (registry_of allow after_batch) 10 500 (ledger_at 70) linked ≡ ok false linked)
    × (list : List IdentityVcRecord) × (get_vc_details
          (registry_of allow after_batch)
          10
          (ledger_at 70)
          linked
        ≡ ok list linked)
    × (has_hash 500 list ≡ false)
revoked_never_verifies_example =
    revoked_never_verifies allow 10 500 (ledger_at 70) linked Reach-after_batch
      after_revoke-IsConsistent is_revoked_500 refl (omega arith)
