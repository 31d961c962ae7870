-- ===== src/Circuit/Exact/Divisions.antt =====
-- The halving, the rate and the composite of zk/circuit/src/score_circuit.rs as conditions on numbers.
use stellar_did_credit.Circuit.Inputs.{ScoreWitness}
use stellar_did_credit.Base.{
  Bool-cases, ap, arith, inl, inr, leb, ltb, mul_mono, nat_eq, refl, u32_max, ℕ, ◌&&◌, ◌*◌, ◌+◌,
  ◌-◌, ◌<◌, ◌==◌, ◌^◌, ◌≡◌, ◌≤◌,
}
use stellar_did_credit.Circuit.Field.{IsLarge, PrimeField, add_lem, mul_lem, sub-ge}
use stellar_did_credit.Circuit.Range.{enforce_fp_range, enforce_u32_range}
use stellar_did_credit.Circuit.Bits.{all_false-drop, enforce_fp_range-sub, enforce_fp_range_lem}
use stellar_did_credit.Circuit.Constraints.{
  enforce_composite, enforce_repay_score, enforce_repayment_rate_score,
}
use stellar_did_credit.Circuit.Exact.{fixed, word}

module _ (f : PrimeField) (large : IsLarge f) where
  pub enforce_repay_score_lem :
      (w : ScoreWitness)
      → w.repay_score ≤ u32_max
      → w.repayment_rate_score ≤ u32_max
      → w.repayment_volume_score ≤ u32_max
      → enforce_repay_score f w
        ≡ (w.repay_score * 2 == w.repayment_rate_score + w.repayment_volume_score)
  unfolding enforce_repay_score
  enforce_repay_score_lem w hs hr hv =
      rw
        (
          word f large w.repay_score hs,
          word f large w.repayment_rate_score hr,
          word f large w.repayment_volume_score hv,
          fixed f large 2 (omega arith),
          mul_lem f large w.repay_score 2 (omega arith),
          add_lem f large w.repayment_rate_score w.repayment_volume_score (omega arith),
        )
        refl

  rest_check :
      (a b total : ℕ)
      → a < 2 ^ 80
      → b < 2 ^ 80
      → total ≤ u32_max
      → (enforce_fp_range f (f.sub a b) 32 && enforce_fp_range f (f.sub total (f.sub a b)) 32)
        ≡ (leb b a && leb (a - b) total)
  rest_check a b total ha hb ht =
      let first = enforce_fp_range-sub f a b 32 large ha hb (omega arith) in
      elim (Bool-cases (leb b a)) [
        | inl e ↦
            let rest = sub-ge f large a b (ground arith) (omega arith) in
            let second =
              enforce_fp_range-sub f total (a - b) 32 large (omega arith) (omega arith)
                (omega arith) in
            rw (rest, second, enforce_fp_range_lem f (a - b) 32 large (omega arith), e)
              (ground arith)
        | inr e ↦ rw (first, e) refl
      ]

  -- The rest of the division, if it is in range, is at most the divisor.
  pub enforce_repayment_rate_score_lem :
      (w : ScoreWitness)
      → w.repayment_rate_score ≤ u32_max
      → w.on_time_count ≤ u32_max
      → w.total_count ≤ u32_max
      → let paid = w.on_time_count * 100 in
        let counted = w.repayment_rate_score * w.total_count in
        enforce_repayment_rate_score f w ≡ (
          ltb w.repayment_rate_score 128
          && (leb counted paid && leb (paid - counted) w.total_count))
  unfolding enforce_repayment_rate_score enforce_u32_range
  enforce_repayment_rate_score_lem w hr ho ht =
      let paid = w.on_time_count * 100 in
      let counted = w.repayment_rate_score * w.total_count in
      let small : counted ≤ u32_max * u32_max =
        mul_mono w.repayment_rate_score w.total_count u32_max u32_max hr ht in
      rw
        (
          word f large w.repayment_rate_score hr,
          word f large w.on_time_count ho,
          word f large w.total_count ht,
          fixed f large 100 (omega arith),
          mul_lem f large w.on_time_count 100 (omega arith),
          mul_lem f large w.repayment_rate_score w.total_count (omega arith),
          all_false-drop 7 32 w.repayment_rate_score (omega arith),
        )
        (ap (λ t. ltb w.repayment_rate_score 128 && t)
          (rest_check paid counted w.total_count (omega arith) (omega arith) ht))

  pub enforce_composite_lem :
      (w : ScoreWitness)
      → w.vc_score ≤ u32_max
      → w.tx_score ≤ u32_max
      → w.repay_score ≤ u32_max
      → w.vc_weight ≤ u32_max
      → w.tx_weight ≤ u32_max
      → w.repayment_weight ≤ u32_max
      → w.composite ≤ u32_max
      → let sum =
          w.vc_score * w.vc_weight
          + w.tx_score * w.tx_weight
          + w.repay_score * w.repayment_weight in
        enforce_composite f w ≡ (
          (leb (w.composite * 100) sum && ltb (sum - w.composite * 100) 128) && ltb w.composite 128)
  unfolding enforce_composite enforce_u32_range
  enforce_composite_lem w hv ht hr hvw htw hrw hc =
      let m = u32_max in
      let a = mul_mono w.vc_score w.vc_weight m m hv hvw in
      let b = mul_mono w.tx_score w.tx_weight m m ht htw in
      let c = mul_mono w.repay_score w.repayment_weight m m hr hrw in
      rw
        (
          word f large w.vc_score hv,
          word f large w.vc_weight hvw,
          word f large w.tx_score ht,
          word f large w.tx_weight htw,
          word f large w.repay_score hr,
          word f large w.repayment_weight hrw,
          word f large w.composite hc,
          fixed f large 100 (omega arith),
          mul_lem f large w.vc_score w.vc_weight (omega arith),
          mul_lem f large w.tx_score w.tx_weight (omega arith),
          mul_lem f large w.repay_score w.repayment_weight (omega arith),
          mul_lem f large w.composite 100 (omega arith),
          add_lem f large (w.vc_score * w.vc_weight) (w.tx_score * w.tx_weight) (omega arith),
          add_lem f large (w.vc_score * w.vc_weight + w.tx_score * w.tx_weight)
              (w.repay_score * w.repayment_weight) (omega arith),
          all_false-drop 7 32 w.composite (omega arith),
          enforce_fp_range-sub f
              (w.vc_score * w.vc_weight
                + w.tx_score * w.tx_weight
                + w.repay_score * w.repayment_weight)
              (w.composite * 100) 7 large (omega arith) (omega arith) (omega arith),
        )
        refl
