-- ===== src/Circuit/Reference.antt =====
-- The reference score of zk/circuit/src/score.rs and the score of the credit oracle.
use stellar_did_credit.Base.{refl, ℕ, ℤ, ◌≡◌}
use stellar_did_credit.Circuit.Score.{compute_score_pure}
use stellar_did_credit.CreditOracle.Scoring.{
  composite_score, repayment_rate_score, repayment_score, scale_score, transaction_score,
  volume_units, compute_score_pure as contract_score,
}

-- The reference function of the circuit returns the score of the contract, on all inputs.
pub compute_score_pure_agrees :
    (vc_points : ℕ) (volume : ℤ) (counterparties on_time total : ℕ) (repaid : ℤ) (wv wt wr : ℕ)
    → compute_score_pure vc_points volume counterparties on_time total repaid wv wt wr
      ≡ contract_score vc_points volume counterparties on_time total repaid wv wt wr
unfolding compute_score_pure contract_score transaction_score repayment_score repayment_rate_score
    volume_units composite_score scale_score
compute_score_pure_agrees vc_points volume counterparties on_time total repaid wv wt wr = refl
