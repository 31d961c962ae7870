-- ===== src/Circuit/Conditions.antt =====
-- The conditions that the constraints of zk/circuit/src/score_circuit.rs come to.
use stellar_did_credit.Circuit.Exact.Scaling.{enforce_score_lem}
use stellar_did_credit.Circuit.Exact.Divisions.{
  enforce_composite_lem, enforce_repay_score_lem, enforce_repayment_rate_score_lem,
}
use stellar_did_credit.Base.{
  Bool, ap, arith, leb, ltb, nat_eq, refl, some, u32_max, ℕ, ◌&&◌, ◌*◌, ◌+◌, ◌-◌, ◌<◌, ◌==◌, ◌||◌,
  ◌∙◌, ◌≡◌, ◌≤◌,
}
use stellar_did_credit.Circuit.Field.{IsLarge, PrimeField, constant_lem}
use stellar_did_credit.Circuit.Commitment.{Bytes}
use stellar_did_credit.Circuit.Inputs.{ScorePublicInputs, ScoreWitness}
use stellar_did_credit.Circuit.Constraints.{as_u64, enforce_commitment, generate_constraints}
use stellar_did_credit.Circuit.Checks.{range_checks_decide}
use stellar_did_credit.Circuit.Exact.{
  enforce_counterparty_bonus_lem, enforce_repayment_volume_score_lem, enforce_tx_score_lem,
  enforce_vc_score_lem, enforce_volume_score_lem,
}
use stellar_did_credit.Circuit.Range.{enforce_u32_gt_fp}

-- The `u32` fields of a witness are `u32`s, and the blinding is an element of the field.
pub record IsTyped (f : PrimeField) (w : ScoreWitness) : Type 0 where
  pub score : w.score ≤ u32_max
  pub vc_count : w.vc_count ≤ u32_max
  pub avg_counterparties : w.avg_counterparties ≤ u32_max
  pub repayment_rate : w.repayment_rate ≤ u32_max
  pub computed_at_ledger : w.computed_at_ledger ≤ u32_max
  pub vc_points : w.vc_points ≤ u32_max
  pub on_time_count : w.on_time_count ≤ u32_max
  pub total_count : w.total_count ≤ u32_max
  pub vc_weight : w.vc_weight ≤ u32_max
  pub tx_weight : w.tx_weight ≤ u32_max
  pub repayment_weight : w.repayment_weight ≤ u32_max
  pub vc_score : w.vc_score ≤ u32_max
  pub volume_score : w.volume_score ≤ u32_max
  pub counterparty_bonus : w.counterparty_bonus ≤ u32_max
  pub tx_score : w.tx_score ≤ u32_max
  pub repayment_rate_score : w.repayment_rate_score ≤ u32_max
  pub repayment_volume_score : w.repayment_volume_score ≤ u32_max
  pub repay_score : w.repay_score ≤ u32_max
  pub composite : w.composite ≤ u32_max
  pub q_volume : w.q_volume ≤ u32_max
  pub q_cp : w.q_cp ≤ u32_max
  pub q_rv : w.q_rv ≤ u32_max
  pub blinding : w.blinding < f.modulus

-- `q` is a quotient by `divisor`, with a rest below `slack`.
abbrev pub divides : ℕ → ℕ → ℕ → ℕ → Bool
divides value q divisor slack = leb (q * divisor) value && ltb (value - q * divisor) slack

-- `score` is below `bound`, and is `q` or `cap`.
abbrev pub capped : ℕ → ℕ → ℕ → ℕ → Bool
capped score bound q cap = ltb score bound && (score == q || score == cap)

abbrev pub numbers_hold : ℕ → ScoreWitness → Bool
numbers_hold threshold w =
    ltb threshold w.score
    && capped w.vc_score 128 w.vc_points 100
    && (divides (as_u64 w.tx_volume_30d) w.q_volume 100000000 134217728
        && capped w.volume_score 128 w.q_volume 80)
    && (divides w.avg_counterparties w.q_cp 5 8 && capped w.counterparty_bonus 32 w.q_cp 20)
    && capped w.tx_score 128 (w.volume_score + w.counterparty_bonus) 100
    && (ltb w.repayment_rate_score 128
        && (leb (w.repayment_rate_score * w.total_count) (w.on_time_count * 100)
            && leb (w.on_time_count * 100 - w.repayment_rate_score * w.total_count) w.total_count))
    && (divides (as_u64 w.total_repaid) w.q_rv 100000000 134217728
        && capped w.repayment_volume_score 128 w.q_rv 100)
    && (w.repay_score * 2 == w.repayment_rate_score + w.repayment_volume_score)
    && (divides
          (w.vc_score * w.vc_weight + w.tx_score * w.tx_weight + w.repay_score * w.repayment_weight)
          w.composite 100 128
        && ltb w.composite 128)
    && (divides (w.composite * 550 + 30000) w.score 100 128 && ltb w.score 1024)

-- An assignment satisfies the circuit exactly if its numbers satisfy the conditions and the
-- commitment opens to them: no constraint wraps around the modulus.
pub generate_constraints_exact :
    (f : PrimeField) (sha256 : Bytes → Bytes) (w : ScoreWitness) (inputs : ScorePublicInputs)
    → IsLarge f
    → IsTyped f w
    → inputs.threshold ≤ u32_max
    → generate_constraints f sha256 (record { witness = some w; public_inputs = inputs })
      ≡ (numbers_hold inputs.threshold w && enforce_commitment f sha256 inputs w)
unfolding generate_constraints
generate_constraints_exact f sha256 w inputs large t h =
    let threshold =
      ap (enforce_u32_gt_fp f w.score) (constant_lem f large inputs.threshold (omega arith))
      ∙ (range_checks_decide f w.score inputs.threshold large t.score h).3 in
    rw
      (
        threshold,
        enforce_vc_score_lem f large w t.vc_score t.vc_points,
        enforce_volume_score_lem f large w t.volume_score t.q_volume,
        enforce_counterparty_bonus_lem f large w t.counterparty_bonus t.q_cp t.avg_counterparties,
        enforce_tx_score_lem f large w t.tx_score t.volume_score t.counterparty_bonus,
        enforce_repayment_rate_score_lem f large w t.repayment_rate_score t.on_time_count
            t.total_count,
        enforce_repayment_volume_score_lem f large w t.repayment_volume_score t.q_rv,
        enforce_repay_score_lem f large w t.repay_score t.repayment_rate_score
            t.repayment_volume_score,
        enforce_composite_lem f large w t.vc_score t.tx_score t.repay_score t.vc_weight t.tx_weight
            t.repayment_weight t.composite,
        enforce_score_lem f large w t.score t.composite,
      )
      refl
