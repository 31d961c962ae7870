-- ===== src/CreditOracle/Tests/Scores.antt =====
-- The theorems on scores at concrete inputs.
use stellar_did_credit.CreditOracle.Repayments.{HasLayoutV2}
use stellar_did_credit.Base.{arith, false, pos, refl, ℕ, ◌*◌, ◌+◌, ◌/◌, ◌≡◌, ◌≤◌}
use stellar_did_credit.Host.{Ensures, ok}
use stellar_did_credit.CreditOracle.State.{Oracle, load_protocol_stats}
use stellar_did_credit.CreditOracle.Scoring.{
  composite_score, compute_score_pure, repayment_score, transaction_score,
}
use stellar_did_credit.CreditOracle.Scoring.Bounds.{compute_score_pure_exact}
use stellar_did_credit.CreditOracle.Compute.{compute_score}
use stellar_did_credit.CreditOracle.Success.{compute_score_succeeds}
use stellar_did_credit.CreditOracle.Writes.{Writes, compute_score-Writes}
use stellar_did_credit.CreditOracle.Tests.{live, one_credential, signed_at}

-- 20 points of credentials, 45 of transactions, 42 of repayments.
score_of_history : compute_score_pure 20 (pos 4000000000) 25 3 4 (pos 1000000000) 40 30 30 ≡ 487
unfolding compute_score_pure
score_of_history = refl

compute_score_pure_exact_example :
    (compute_score_pure 20 (pos 4000000000) 25 3 4 (pos 1000000000) 40 30 30
      ≡ 300
        + composite_score 20
            (transaction_score (pos 4000000000) 25)
            (repayment_score 3 4 (pos 1000000000))
            40
            30
            30
          * 550
          / 100)
    × (composite_score 20
          (transaction_score (pos 4000000000) 25)
          (repayment_score 3 4 (pos 1000000000))
          40
          30
          30
        ≤ 100)
compute_score_pure_exact_example =
    compute_score_pure_exact 20 (pos 4000000000) 25 3 4 (pos 1000000000) 40 30 30 (omega arith)
      (omega arith, omega arith, omega arith, refl)

compute_score-Writes_example :
    Ensures
      (Writes one_credential 10 (signed_at 60) live)
      (compute_score one_credential 10 (signed_at 60) live)
compute_score-Writes_example = compute_score-Writes one_credential 10 (signed_at 60) live

live-HasLayoutV2 : HasLayoutV2 live
live-HasLayoutV2 = ground arith

compute_score_succeeds_example :
    (score : ℕ) × (t : Oracle) × (compute_score one_credential 10 (signed_at 60) live ≡ ok score t)
    × Writes one_credential 10 (signed_at 60) live score t
compute_score_succeeds_example =
    compute_score_succeeds one_credential 10 (signed_at 60) live live-HasLayoutV2 refl
      (unfold load_protocol_stats in omega arith) (false, refl, _, refl, refl, omega arith) refl
      refl
