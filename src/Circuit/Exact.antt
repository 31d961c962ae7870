-- ===== src/Circuit/Exact.antt =====
-- The constraints of zk/circuit/src/score_circuit.rs as conditions on numbers.
pub mod Divisions
pub mod Scaling
use native.Mathlib.Nat.{add-mul-mod_self_right, mod-eq_of_lt}
use stellar_did_credit.Circuit.Inputs.{ScoreWitness}
use stellar_did_credit.Base.{
  ap, arith, leb, ltb, nat_eq, refl, u32_max, u64_max, ℕ, ◌&&◌, ◌*◌, ◌+◌, ◌-◌, ◌<◌, ◌==◌, ◌^◌, ◌||◌,
  ◌∙◌, ◌≡◌, ◌≤◌,
}
use stellar_did_credit.Circuit.Field.{IsLarge, PrimeField, add_lem, constant_lem, mul_lem}
use stellar_did_credit.Circuit.Range.{enforce_u32_range, uint32_to_fp}
use stellar_did_credit.Circuit.Bits.{
  all_false-drop, enforce_fp_range-sub, uint32_to_fp_lem, uint64_to_fp_lem,
}
use stellar_did_credit.Circuit.Products.{product_check}
use stellar_did_credit.Circuit.Constraints.{
  as_u64, enforce_capped, enforce_counterparty_bonus, enforce_repayment_volume_score,
  enforce_tx_score, enforce_units, enforce_vc_score, enforce_volume_score,
}

module _ (f : PrimeField) (large : IsLarge f) where
  pub fixed : (n : ℕ) → n < 2 ^ 100 → f.constant n ≡ n
  fixed n h = constant_lem f large n (omega arith)

  pub word : (v : ℕ) → v ≤ u32_max → uint32_to_fp f v ≡ v
  word v h = uint32_to_fp_lem f v large (omega arith)

  -- `score` has at most `bits` bits and is `q` or the cap: the cap is never compared with `q`.
  enforce_capped_lem :
      (score bits q cap : ℕ)
      → score ≤ u32_max
      → q < 2 ^ 40
      → cap ≤ 100
      → enforce_capped f score bits q cap ≡ (ltb score (2 ^ bits) && (score == q || score == cap))
  unfolding enforce_capped enforce_u32_range
  enforce_capped_lem score bits q cap hs hq hc =
      rw
        (
          word score hs,
          fixed cap (omega arith),
          fixed 0 (omega arith),
          all_false-drop bits 32 score (omega arith),
          product_check f score q cap large (omega arith) hq (omega arith),
        )
        refl

  enforce_units_lem :
      (value q : ℕ)
      → value ≤ u64_max
      → q ≤ u32_max
      → enforce_units f value q
        ≡ (leb (q * 100000000) value && ltb (value - q * 100000000) 134217728)
  unfolding enforce_units
  enforce_units_lem value q hv hq =
      rw
        (
          word q hq,
          fixed 100000000 (omega arith),
          mul_lem f large q 100000000 (omega arith),
          uint64_to_fp_lem f value large (omega arith),
        )
        (enforce_fp_range-sub f value (q * 100000000) 27 large (omega arith) (omega arith)
          (omega arith))

  pub enforce_tx_score_lem :
      (w : ScoreWitness)
      → w.tx_score ≤ u32_max
      → w.volume_score ≤ u32_max
      → w.counterparty_bonus ≤ u32_max
      → enforce_tx_score f w ≡ (
          ltb w.tx_score 128
          && (w.tx_score == w.volume_score + w.counterparty_bonus || w.tx_score == 100))
  unfolding enforce_tx_score
  enforce_tx_score_lem w ht hv hc =
      rw
        (
          word w.volume_score hv,
          word w.counterparty_bonus hc,
          add_lem f large w.volume_score w.counterparty_bonus (omega arith),
        )
        (enforce_capped_lem w.tx_score 7 (w.volume_score + w.counterparty_bonus) 100 ht
          (omega arith) (omega arith))

  pub enforce_counterparty_bonus_lem :
      (w : ScoreWitness)
      → w.counterparty_bonus ≤ u32_max
      → w.q_cp ≤ u32_max
      → w.avg_counterparties ≤ u32_max
      → enforce_counterparty_bonus f w ≡ (
          (leb (w.q_cp * 5) w.avg_counterparties && ltb (w.avg_counterparties - w.q_cp * 5) 8)
          && (ltb w.counterparty_bonus 32
              && (w.counterparty_bonus == w.q_cp || w.counterparty_bonus == 20)))
  unfolding enforce_counterparty_bonus
  enforce_counterparty_bonus_lem w hb hq ha =
      rw
        (
          word w.q_cp hq,
          word w.avg_counterparties ha,
          fixed 5 (omega arith),
          mul_lem f large w.q_cp 5 (omega arith),
          enforce_fp_range-sub f w.avg_counterparties (w.q_cp * 5) 3 large (omega arith)
              (omega arith) (omega arith),
          enforce_capped_lem w.counterparty_bonus 5 w.q_cp 20 hb (omega arith) (omega arith),
        )
        refl

  pub enforce_vc_score_lem :
      (w : ScoreWitness)
      → w.vc_score ≤ u32_max
      → w.vc_points ≤ u32_max
      → enforce_vc_score f w
        ≡ (ltb w.vc_score 128 && (w.vc_score == w.vc_points || w.vc_score == 100))
  unfolding enforce_vc_score
  enforce_vc_score_lem w hv hp =
      ap (λ q. enforce_capped f w.vc_score 7 q 100) (word w.vc_points hp)
      ∙ enforce_capped_lem w.vc_score 7 w.vc_points 100 hv (omega arith) (omega arith)

  capped_units :
      (value score q cap : ℕ)
      → value ≤ u64_max
      → score ≤ u32_max
      → q ≤ u32_max
      → cap ≤ 100
      → (enforce_units f value q && enforce_capped f score 7 (uint32_to_fp f q) cap) ≡ (
          (leb (q * 100000000) value && ltb (value - q * 100000000) 134217728)
          && (ltb score 128 && (score == q || score == cap)))
  capped_units value score q cap hv hs hq hc =
      ap (λ t. t && enforce_capped f score 7 (uint32_to_fp f q) cap)
        (enforce_units_lem value q hv hq)
      ∙ ap (λ t. (leb (q * 100000000) value && ltb (value - q * 100000000) 134217728) && t)
          (ap (λ t. enforce_capped f score 7 t cap) (word q hq)
            ∙ enforce_capped_lem score 7 q cap hs (omega arith) hc)

  pub enforce_volume_score_lem :
      (w : ScoreWitness)
      → w.volume_score ≤ u32_max
      → w.q_volume ≤ u32_max
      → let value = as_u64 w.tx_volume_30d in
        enforce_volume_score f w ≡ (
          (leb (w.q_volume * 100000000) value && ltb (value - w.q_volume * 100000000) 134217728)
          && (ltb w.volume_score 128 && (w.volume_score == w.q_volume || w.volume_score == 80)))
  unfolding enforce_volume_score
  enforce_volume_score_lem w hs hq =
      capped_units (as_u64 w.tx_volume_30d) w.volume_score w.q_volume 80 (omega arith) hs hq
        (omega arith)

  pub enforce_repayment_volume_score_lem :
      (w : ScoreWitness)
      → w.repayment_volume_score ≤ u32_max
      → w.q_rv ≤ u32_max
      → let value = as_u64 w.total_repaid in
        enforce_repayment_volume_score f w ≡ (
          (leb (w.q_rv * 100000000) value && ltb (value - w.q_rv * 100000000) 134217728)
          && (ltb w.repayment_volume_score 128
              && (w.repayment_volume_score == w.q_rv || w.repayment_volume_score == 100)))
  unfolding enforce_repayment_volume_score
  enforce_repayment_volume_score_lem w hs hq =
      capped_units (as_u64 w.total_repaid) w.repayment_volume_score w.q_rv 100 (omega arith) hs hq
        (omega arith)
