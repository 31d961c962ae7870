-- ===== src/CreditOracle/Scoring/Bounds.antt =====
-- Ranges of the scoring arithmetic.
use native.Mathlib.Nat.{div-le_of_le-mul, div-le_self}
use stellar_did_credit.CreditOracle.Types.{min_component_weight}
use stellar_did_credit.Base.{
  arith, min, mul_mono, suc, u128_max, u32_max, zero, ℕ, ℤ, ◌*◌, ◌+◌, ◌/◌, ◌≡◌, ◌≤◌,
}
use stellar_did_credit.CreditOracle.Scoring.{
  composite_score, compute_score_pure, max_score, min_score, repayment_rate_score, repayment_score,
  scale_score, transaction_score, volume_units,
}

scale_score_bounds : (c : ℕ) → (min_score ≤ scale_score c) × (scale_score c ≤ max_score)
unfolding scale_score
scale_score_bounds c = omega arith

scale_score_exact : (c : ℕ) → c ≤ 100 → scale_score c ≡ min_score + c * 550 / 100
unfolding scale_score
scale_score_exact c h = omega arith

-- Whatever the inputs and the weights are, the score lies between 300 and 850.
pub compute_score_pure_bounds :
    (vc_points : ℕ) (volume : ℤ) (counterparties on_time total : ℕ) (repaid : ℤ) (wv wt wr : ℕ)
    → let score =
        compute_score_pure vc_points volume counterparties on_time total repaid wv wt wr in
      (min_score ≤ score) × (score ≤ max_score)
unfolding compute_score_pure
compute_score_pure_bounds vc_points volume counterparties on_time total repaid wv wt wr =
    scale_score_bounds _

pub transaction_score-le :
    (volume : ℤ) (counterparties : ℕ) → transaction_score volume counterparties ≤ 100
unfolding transaction_score
transaction_score-le volume counterparties = omega arith

pub repayment_rate_score-le :
    (on_time total : ℕ) → on_time ≤ total → repayment_rate_score on_time total ≤ 100
unfolding repayment_rate_score
repayment_rate_score-le on_time zero h = omega arith
repayment_rate_score-le on_time (suc n) h =
    let r : min (on_time * 10000) u128_max / suc n ≤ 10000 =
      div-le_of_le-mul (suc n) (omega arith) in
    ground (arith, r)

pub repayment_score-le :
    (on_time total : ℕ) (repaid : ℤ) → on_time ≤ total → repayment_score on_time total repaid ≤ 100
unfolding repayment_score
repayment_score-le on_time total repaid h = omega (arith, repayment_rate_score-le on_time total)

-- The two conditions that `is_valid` accepts, as numbers.
abbrev pub IsWeighting : ℕ → ℕ → ℕ → Type 0
IsWeighting wv wt wr =
    (min_component_weight ≤ wv)
    × (min_component_weight ≤ wt)
    × (min_component_weight ≤ wr)
    × (wv + wt + wr ≡ 100)

composite_score-le :
    (a b c wv wt wr : ℕ)
    → a ≤ 100
    → b ≤ 100
    → c ≤ 100
    → wv + wt + wr ≡ 100
    → composite_score a b c wv wt wr ≤ 100
unfolding composite_score
composite_score-le a b c wv wt wr ha hb hc sum = omega (
  arith,
  mul_mono a wv 100 wv ha (omega arith),
  mul_mono b wt 100 wt hb (omega arith),
  mul_mono c wr 100 wr hc (omega arith),
)

-- With weights of at least 10 each that sum to 100 and no more on-time payments than payments,
-- neither clamp is met: the score is 300 plus 5.5 points, rounded down, for each point of the
-- composite, and the composite is at most 100.
pub compute_score_pure_exact :
    (vc_points : ℕ) (volume : ℤ) (counterparties on_time total : ℕ) (repaid : ℤ) (wv wt wr : ℕ)
    → on_time ≤ total
    → IsWeighting wv wt wr
    → let composite =
        composite_score
          (min vc_points 100)
          (transaction_score volume counterparties)
          (repayment_score on_time total repaid)
          wv
          wt
          wr in
      (compute_score_pure vc_points volume counterparties on_time total repaid wv wt wr
        ≡ min_score + composite * 550 / 100)
      × (composite ≤ 100)
unfolding compute_score_pure
compute_score_pure_exact vc_points volume counterparties on_time total repaid wv wt wr h w =
    let small =
      composite_score-le (min vc_points 100) (transaction_score volume counterparties)
        (repayment_score on_time total repaid) wv wt wr (omega arith)
        (transaction_score-le volume counterparties) (repayment_score-le on_time total repaid h)
        w.3 in
    (scale_score_exact _ small, small)

repayment_rate_score-le_count :
    (on_time total : ℕ) → repayment_rate_score on_time total ≤ on_time * 100
unfolding repayment_rate_score
repayment_rate_score-le_count on_time zero = omega arith
repayment_rate_score-le_count on_time (suc n) =
    let r = div-le_self (min (on_time * 10000) u128_max) (suc n) in ground (arith, r)

-- No unchecked `u128` operation of the score overflows for `u32` weights and a `u32` count of on-
-- time payments.
pub compute_score_pure_fits :
    (vc_points : ℕ) (volume : ℤ) (counterparties on_time total : ℕ) (repaid : ℤ) (wv wt wr : ℕ)
    → on_time ≤ u32_max
    → wv ≤ u32_max
    → wt ≤ u32_max
    → wr ≤ u32_max
    → let a = min vc_points 100 in
      let b = transaction_score volume counterparties in
      let c = repayment_score on_time total repaid in
      (a * wv + b * wt + c * wr ≤ u128_max)
      × (composite_score a b c wv wt wr * 550 ≤ u128_max)
      × (repayment_rate_score on_time total + min (volume_units repaid) 100 ≤ u128_max)
unfolding composite_score
compute_score_pure_fits vc_points volume counterparties on_time total repaid wv wt wr ho hv ht hr =
    let rate = repayment_rate_score-le_count on_time total in
    let c = repayment_score on_time total repaid in
    let small : c ≤ 50 * u32_max + 50 = unfold repayment_score in omega (arith, rate) in
    let a_part = mul_mono (min vc_points 100) wv 100 u32_max (omega arith) hv in
    let b_part =
      mul_mono (transaction_score volume counterparties) wt 100 u32_max
        (transaction_score-le volume counterparties) ht in
    let c_part = mul_mono c wr (50 * u32_max + 50) u32_max small hr in
    (omega arith, omega arith, omega (arith, rate))
