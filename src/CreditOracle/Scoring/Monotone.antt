-- ===== src/CreditOracle/Scoring/Monotone.antt =====
-- Better inputs never lower a score.
use stellar_did_credit.Base.{
  arith, div_mono, min, mul_mono, negsuc, pos, suc, u128_max, zero, ℕ, ℤ, ◌*◌, ◌≤ℤ◌, ◌≤◌,
}
use stellar_did_credit.CreditOracle.Scoring.{
  composite_score, compute_score_pure, repayment_rate_score, repayment_score, scale_score,
  transaction_score, volume_units,
}

volume_units_mono : (x y : ℤ) → x ≤ℤ y → volume_units x ≤ volume_units y
unfolding volume_units
volume_units_mono (pos m) (pos n) h = omega arith
volume_units_mono (pos m) (negsuc n) h = absurd (omega arith)
volume_units_mono (negsuc m) y h = ground arith

transaction_score_mono :
    (x y : ℤ) (c d : ℕ) → x ≤ℤ y → c ≤ d → transaction_score x c ≤ transaction_score y d
unfolding transaction_score
transaction_score_mono x y c d h k = omega (arith, volume_units_mono x y h)

repayment_rate_score_mono :
    (a b total : ℕ) → a ≤ b → repayment_rate_score a total ≤ repayment_rate_score b total
unfolding repayment_rate_score
repayment_rate_score_mono a b zero h = omega arith
repayment_rate_score_mono a b (suc n) h = ground (
  arith,
  div_mono (min (a * 10000) u128_max) (min (b * 10000) u128_max) (suc n) (omega arith)
      (omega arith),
)

repayment_score_mono :
    (a b total : ℕ) (x y : ℤ)
    → a ≤ b
    → x ≤ℤ y
    → repayment_score a total x ≤ repayment_score b total y
unfolding repayment_score
repayment_score_mono a b total x y h k =
    omega (arith, repayment_rate_score_mono a b total h, volume_units_mono x y k)

composite_score_mono :
    (a b c a' b' c' wv wt wr : ℕ)
    → a ≤ a'
    → b ≤ b'
    → c ≤ c'
    → composite_score a b c wv wt wr ≤ composite_score a' b' c' wv wt wr
unfolding composite_score
composite_score_mono a b c a' b' c' wv wt wr ha hb hc = omega (
  arith,
  mul_mono a wv a' wv ha (omega arith),
  mul_mono b wt b' wt hb (omega arith),
  mul_mono c wr c' wr hc (omega arith),
)

scale_score_mono : (c d : ℕ) → c ≤ d → scale_score c ≤ scale_score d
unfolding scale_score
scale_score_mono c d h = omega arith

-- At fixed weights and a fixed number of repayments, more credential points, volume,
-- counterparties, on-time repayments or repaid value never lower the score.
pub compute_score_pure_mono :
    (p p' : ℕ) (v v' : ℤ) (c c' o o' total : ℕ) (r r' : ℤ) (wv wt wr : ℕ)
    → p ≤ p'
    → v ≤ℤ v'
    → c ≤ c'
    → o ≤ o'
    → r ≤ℤ r'
    → compute_score_pure p v c o total r wv wt wr ≤ compute_score_pure p' v' c' o' total r' wv wt wr
unfolding compute_score_pure
compute_score_pure_mono p p' v v' c c' o o' total r r' wv wt wr hp hv hc ho hr =
    scale_score_mono _ _ (
      composite_score_mono (min p 100) (transaction_score v c) (repayment_score o total r)
        (min p' 100) (transaction_score v' c') (repayment_score o' total r') wv wt wr (omega arith)
        (transaction_score_mono v v' c c' hv hc) (repayment_score_mono o o' total r r' ho hr))
