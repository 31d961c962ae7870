-- ===== src/Circuit/Score.antt =====
-- The reference score of zk/circuit/src/score.rs.
use stellar_did_credit.Base.{
  as_u32, checked_div, div_ℤ, max, min, none, pos_part, sat_mul, some, u128_max, ℕ, ℤ, ◌*◌, ◌+◌,
  ◌/◌,
}

abbrev pub min_score : ℕ
min_score = 300

abbrev pub max_score : ℕ
max_score = 850

-- `u128` sums and products that the code leaves unchecked are exact here.
unfoldable pub compute_score_pure : ℕ → ℤ → ℕ → ℕ → ℕ → ℤ → ℕ → ℕ → ℕ → ℕ
compute_score_pure vc_points volume_30d avg_counterparties on_time_count total_count total_repaid
      vc_weight tx_weight repayment_weight =
    let vc_score = min vc_points 100 in
    let volume_score = min (pos_part (div_ℤ volume_30d 100000000)) 80 in
    let counterparty_bonus = min (avg_counterparties / 5) 20 in
    let tx_score = min (volume_score + counterparty_bonus) 100 in
    let repayment_rate_score : ℕ =
      elim (checked_div (sat_mul u128_max on_time_count 10000) total_count) [
        | none ↦ 0
        | some r ↦ r / 100
      ] in
    let repayment_volume_score = min (pos_part (div_ℤ total_repaid 100000000)) 100 in
    let repay_score = (repayment_rate_score + repayment_volume_score) / 2 in
    let composite =
      (vc_score * vc_weight + tx_score * tx_weight + repay_score * repayment_weight) / 100 in
    let score = min_score + sat_mul u128_max composite 550 / 100 in
    as_u32 (max (min score max_score) min_score)
