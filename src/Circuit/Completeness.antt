-- ===== src/Circuit/Completeness.antt =====
-- Which holders of a true score can prove it (zk/circuit/src/score_circuit.rs, score.rs).
use stellar_did_credit.Base.{
  Bool, false, ltb, nat_beq_iff, nat_eq, refl, some, true, u32_max, ◌%◌, ◌&&◌, ◌+◌, ◌==◌, ◌∙◌, ◌≡◌,
  ◌≤◌,
}
use stellar_did_credit.Circuit.Field.{IsLarge, PrimeField}
use stellar_did_credit.Circuit.Commitment.{Bytes, commit, pedersen_commitment}
use stellar_did_credit.Circuit.Inputs.{ScorePublicInputs, ScoreWitness, circuit_domain}
use stellar_did_credit.Circuit.Constraints.{enforce_commitment, generate_constraints}
use stellar_did_credit.Circuit.Conditions.{generate_constraints_exact}
use stellar_did_credit.Circuit.Opening.{enforce_commitment_agrees, record_fields}
use stellar_did_credit.Circuit.Honest.{IsHonestTyped, honest_numbers}
use stellar_did_credit.Circuit.Score.{compute_score_pure}

and_true : (b : Bool) → (b && true) ≡ b
and_true true = refl
and_true false = refl

-- A witness with the values of the reference score, that the commitment opens to, satisfies the
-- circuit exactly if the reference score is above the threshold and the two parts of the repayment
-- score have an even sum: the constraint on the repayment score has no room for a rest.
pub honest_accepted :
    (f : PrimeField) (sha256 : Bytes → Bytes) (w : ScoreWitness) (inputs : ScorePublicInputs)
    → IsLarge f
    → IsHonestTyped f w
    → inputs.threshold ≤ u32_max
    → commit f (pedersen_commitment f sha256 circuit_domain) (record_fields f w) w.blinding
      ≡ inputs.score_commitment
    → let score =
        compute_score_pure w.vc_points w.tx_volume_30d w.avg_counterparties w.on_time_count
          w.total_count w.total_repaid w.vc_weight w.tx_weight w.repayment_weight in
      generate_constraints f sha256 (record { witness = some w; public_inputs = inputs })
      ≡ (ltb inputs.threshold score && (w.repayment_rate_score + w.repayment_volume_score) % 2 == 0)
honest_accepted f sha256 w inputs large k h opened =
    let exact = generate_constraints_exact f sha256 w inputs large k.typed h in
    let opens : enforce_commitment f sha256 inputs w ≡ true =
      enforce_commitment_agrees f sha256 inputs w large k.typed k.last_updated
      ∙ (nat_beq_iff _ _).1 opened in
    let numbers = honest_numbers f inputs.threshold w k in
    rw (exact, opens, numbers, k.honest.score) (and_true _)
