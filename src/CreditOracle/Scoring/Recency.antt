-- ===== src/CreditOracle/Scoring/Recency.antt =====
-- Recency decay: `recency_multiplier_bps` and `apply_recency_bps`.
use stellar_did_credit.Base.{arith, min, mul_mono, u32_max, ℕ, ◌*◌, ◌+◌, ◌-◌, ◌/◌, ◌<◌, ◌≡◌, ◌≤◌}
use stellar_did_credit.CreditOracle.Scoring.{
  apply_recency_bps, bps_denominator, recency_multiplier_bps, seconds_per_day,
}

-- The multiplier lies between the floor, cut at full weight, and full weight.
pub recency_multiplier_bps_bounds :
    (anchored_at now decay floor : ℕ)
    → (min floor bps_denominator ≤ recency_multiplier_bps anchored_at now decay floor)
      × (recency_multiplier_bps anchored_at now decay floor ≤ bps_denominator)
unfolding recency_multiplier_bps
recency_multiplier_bps_bounds anchored_at now decay floor = omega arith

-- At the same time and floor, a credential that was anchored later, under a rate that is no
-- higher, never weighs less.
pub recency_multiplier_bps_mono :
    (anchored later now decay slower floor : ℕ)
    → anchored ≤ later
    → slower ≤ decay
    → recency_multiplier_bps anchored now decay floor
      ≤ recency_multiplier_bps later now slower floor
unfolding recency_multiplier_bps
recency_multiplier_bps_mono anchored later now decay slower floor h k = omega (
  arith,
  mul_mono ((now - later) / seconds_per_day) slower ((now - anchored) / seconds_per_day) decay
      (omega arith) k,
)

-- In its first day, and if it was anchored in the future, a credential keeps its full weight.
pub recency_multiplier_bps_fresh :
    (anchored_at now decay floor : ℕ)
    → now < anchored_at + seconds_per_day
    → recency_multiplier_bps anchored_at now decay floor ≡ bps_denominator
unfolding recency_multiplier_bps
recency_multiplier_bps_fresh anchored_at now decay floor h =
    let today : (now - anchored_at) / seconds_per_day ≡ 0 = omega arith in rw today (omega arith)

-- For `u32` points and a multiplier of at most 1, no cast or saturation is met, the result never
-- exceeds the points, and a multiplier of 1 keeps them.
pub apply_recency_bps_lem :
    (points bps : ℕ)
    → points ≤ u32_max
    → bps ≤ bps_denominator
    → (apply_recency_bps points bps ≡ points * bps / bps_denominator)
      × (apply_recency_bps points bps ≤ points)
      × (apply_recency_bps points bps_denominator ≡ points)
unfolding apply_recency_bps
apply_recency_bps_lem points bps h k =
    let small : points * bps ≤ points * bps_denominator =
      mul_mono points bps points bps_denominator (omega arith) k in
    (omega arith, omega arith, omega arith)
