-- ===== src/CreditOracle/Scoring.antt =====
-- The pure scoring arithmetic of contracts/credit-oracle/src/lib.rs.
pub mod Bounds
pub mod Monotone
pub mod Recency
use stellar_did_credit.Base.{
  as_u32, checked_div, div_ℤ, max, min, none, pos_part, sat_mul, some, u128_max, u64_max, ℕ, ℤ, ◌*◌,
  ◌+◌, ◌-◌, ◌/◌,
}

abbrev pub min_score : ℕ
min_score = 300

abbrev pub max_score : ℕ
max_score = 850

abbrev pub bps_denominator : ℕ
bps_denominator = 10000

abbrev pub seconds_per_day : ℕ
seconds_per_day = 86400

-- `u64` arithmetic that saturates; the cast to `u32` is written out.
unfoldable pub recency_multiplier_bps : ℕ → ℕ → ℕ → ℕ → ℕ
recency_multiplier_bps anchored_at now decay_bps_per_day min_recency_bps =
    let age_days = (now - anchored_at) / seconds_per_day in
    let decay = sat_mul u64_max age_days decay_bps_per_day in
    let multiplier = bps_denominator - decay in
    let floor = min min_recency_bps bps_denominator in as_u32 (max multiplier floor)

unfoldable pub apply_recency_bps : ℕ → ℕ → ℕ
apply_recency_bps points recency_bps = as_u32 (sat_mul u64_max points recency_bps / bps_denominator)

-- `(x / 100_000_000i128).max(0) as u128`
unfoldable pub volume_units : ℤ → ℕ
volume_units x = pos_part (div_ℤ x 100000000)

unfoldable pub transaction_score : ℤ → ℕ → ℕ
unfolding volume_units
transaction_score volume_30d avg_counterparties =
    let volume_score = min (volume_units volume_30d) 80 in
    let counterparty_bonus = min (avg_counterparties / 5) 20 in
    min (volume_score + counterparty_bonus) 100

unfoldable pub repayment_rate_score : ℕ → ℕ → ℕ
repayment_rate_score on_time_count total_count =
    elim (checked_div (sat_mul u128_max on_time_count 10000) total_count) [
      | none ↦ 0
      | some r ↦ r / 100
    ]

unfoldable pub repayment_score : ℕ → ℕ → ℤ → ℕ
unfolding repayment_rate_score volume_units
repayment_score on_time_count total_count total_repaid =
    (repayment_rate_score on_time_count total_count + min (volume_units total_repaid) 100) / 2

unfoldable pub composite_score : ℕ → ℕ → ℕ → ℕ → ℕ → ℕ → ℕ
composite_score vc_score tx_score repay_score vc_weight tx_weight repayment_weight =
    (vc_score * vc_weight + tx_score * tx_weight + repay_score * repayment_weight) / 100

-- The last two lines: from the composite to a score in range.
unfoldable pub scale_score : ℕ → ℕ
scale_score composite =
    let score = min_score + sat_mul u128_max composite 550 / 100 in
    as_u32 (max (min score max_score) min_score)

-- `u128` sums and products that the code leaves unchecked are exact here; Scoring/Bounds shows
-- that they fit.
unfoldable pub compute_score_pure : ℕ → ℤ → ℕ → ℕ → ℕ → ℤ → ℕ → ℕ → ℕ → ℕ
unfolding transaction_score repayment_score composite_score scale_score
compute_score_pure vc_points volume_30d avg_counterparties on_time_count total_count total_repaid
      vc_weight tx_weight repayment_weight =
    let vc_score = min vc_points 100 in
    let tx_score = transaction_score volume_30d avg_counterparties in
    let repay_score = repayment_score on_time_count total_count total_repaid in
    scale_score (composite_score vc_score tx_score repay_score vc_weight tx_weight repayment_weight)
