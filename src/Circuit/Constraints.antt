-- ===== src/Circuit/Constraints.antt =====
-- `generate_constraints` of zk/circuit/src/score_circuit.rs: the eleven groups of constraints on the
-- values that a prover assigns to the variables.
use stellar_did_credit.Base.{Bool, List, [], nat_eq, pos_part, ℕ, ℤ, ◌%◌, ◌&&◌, ◌==◌, ◌∷◌}
use stellar_did_credit.Circuit.Field.{PrimeField}
use stellar_did_credit.Circuit.Range.{
  boolean_to_fp, enforce_fp_range, enforce_u32_gt_fp, enforce_u32_range, uint32_to_fp, uint64_to_fp,
}
use stellar_did_credit.Circuit.Commitment.{Bytes, pedersen_commitment}
use stellar_did_credit.Circuit.Inputs.{
  ScoreCircuit, ScorePublicInputs, ScoreWitness, assigned, circuit_domain,
}

-- `x.max(0) as u64`
abbrev pub as_u64 : ℤ → ℕ
as_u64 x = pos_part x % 18446744073709551616

-- `score == min(q, cap)`, as the circuit has it: `score` has at most `bits` bits, and
-- `(score - q) * (score - cap) == 0`.
unfoldable pub enforce_capped : PrimeField → ℕ → ℕ → ℕ → ℕ → Bool
enforce_capped f score bits q cap =
    let score_fp = uint32_to_fp f score in
    let diff1 = f.sub score_fp q in
    let diff2 = f.sub score_fp (f.constant cap) in
    enforce_u32_range score bits && f.mul diff1 diff2 == f.constant 0

-- Constraint 2
unfoldable pub enforce_vc_score : PrimeField → ScoreWitness → Bool
unfolding enforce_capped
enforce_vc_score f w = enforce_capped f w.vc_score 7 (uint32_to_fp f w.vc_points) 100

-- `q` is the quotient of a 64-bit `value` by 100_000_000, with a rest of at most 27 bits.
unfoldable pub enforce_units : PrimeField → ℕ → ℕ → Bool
enforce_units f value q =
    let min_value = f.mul (uint32_to_fp f q) (f.constant 100000000) in
    enforce_fp_range f (f.sub (uint64_to_fp f value) min_value) 27

-- Constraint 3
unfoldable pub enforce_volume_score : PrimeField → ScoreWitness → Bool
unfolding enforce_units enforce_capped
enforce_volume_score f w =
    enforce_units f (as_u64 w.tx_volume_30d) w.q_volume
    && enforce_capped f w.volume_score 7 (uint32_to_fp f w.q_volume) 80

-- Constraint 4
unfoldable pub enforce_counterparty_bonus : PrimeField → ScoreWitness → Bool
unfolding enforce_capped
enforce_counterparty_bonus f w =
    let min_cp = f.mul (uint32_to_fp f w.q_cp) (f.constant 5) in
    enforce_fp_range f (f.sub (uint32_to_fp f w.avg_counterparties) min_cp) 3
    && enforce_capped f w.counterparty_bonus 5 (uint32_to_fp f w.q_cp) 20

-- Constraint 5
unfoldable pub enforce_tx_score : PrimeField → ScoreWitness → Bool
unfolding enforce_capped
enforce_tx_score f w =
    let sum = f.add (uint32_to_fp f w.volume_score) (uint32_to_fp f w.counterparty_bonus) in
    enforce_capped f w.tx_score 7 sum 100

-- Constraint 6
unfoldable pub enforce_repayment_rate_score : PrimeField → ScoreWitness → Bool
enforce_repayment_rate_score f w =
    let total_fp = uint32_to_fp f w.total_count in
    let on_time_100 = f.mul (uint32_to_fp f w.on_time_count) (f.constant 100) in
    let rr_times_total = f.mul (uint32_to_fp f w.repayment_rate_score) total_fp in
    let rr_diff = f.sub on_time_100 rr_times_total in
    enforce_u32_range w.repayment_rate_score 7
    && (enforce_fp_range f rr_diff 32 && enforce_fp_range f (f.sub total_fp rr_diff) 32)

-- Constraint 7
unfoldable pub enforce_repayment_volume_score : PrimeField → ScoreWitness → Bool
unfolding enforce_units enforce_capped
enforce_repayment_volume_score f w =
    enforce_units f (as_u64 w.total_repaid) w.q_rv
    && enforce_capped f w.repayment_volume_score 7 (uint32_to_fp f w.q_rv) 100

-- Constraint 8
unfoldable pub enforce_repay_score : PrimeField → ScoreWitness → Bool
enforce_repay_score f w =
    let rr_plus_rv =
      f.add (uint32_to_fp f w.repayment_rate_score) (uint32_to_fp f w.repayment_volume_score) in
    f.mul (uint32_to_fp f w.repay_score) (f.constant 2) == rr_plus_rv

-- Constraint 9
unfoldable pub enforce_composite : PrimeField → ScoreWitness → Bool
enforce_composite f w =
    let vc_term = f.mul (uint32_to_fp f w.vc_score) (uint32_to_fp f w.vc_weight) in
    let tx_term = f.mul (uint32_to_fp f w.tx_score) (uint32_to_fp f w.tx_weight) in
    let repay_term = f.mul (uint32_to_fp f w.repay_score) (uint32_to_fp f w.repayment_weight) in
    let numerator = f.add (f.add vc_term tx_term) repay_term in
    let composite_100 = f.mul (uint32_to_fp f w.composite) (f.constant 100) in
    enforce_fp_range f (f.sub numerator composite_100) 7 && enforce_u32_range w.composite 7

-- Constraint 10
unfoldable pub enforce_score : PrimeField → ScoreWitness → Bool
enforce_score f w =
    let composite_550 = f.mul (uint32_to_fp f w.composite) (f.constant 550) in
    let score_minus_300 = f.sub (uint32_to_fp f w.score) (f.constant 300) in
    let score_100 = f.mul score_minus_300 (f.constant 100) in
    enforce_fp_range f (f.sub composite_550 score_100) 7 && enforce_u32_range w.score 10

-- The fields that are committed to.
unfoldable pub committed_fields : PrimeField → ScoreWitness → List ℕ
committed_fields f w =
    uint32_to_fp f w.score
    ∷ uint32_to_fp f w.vc_count
    ∷ uint64_to_fp f (as_u64 w.tx_volume_30d)
    ∷ uint32_to_fp f w.avg_counterparties
    ∷ uint32_to_fp f w.repayment_rate
    ∷ uint64_to_fp f w.last_updated
    ∷ uint32_to_fp f w.computed_at_ledger
    ∷ boolean_to_fp f w.stale
    ∷ []

-- The loop over the fields and the coefficients, of which there are 8 each.
unfoldable pub sum_fields : PrimeField → ℕ → List ℕ → List ℕ → ℕ
sum_fields f acc [] coefficients = acc
sum_fields f acc (field ∷ fields) [] = acc
sum_fields f acc (field ∷ fields) (c ∷ coefficients) =
    sum_fields f (f.add acc (f.mul field c)) fields coefficients

-- Constraint 11
unfoldable pub enforce_commitment :
    PrimeField → (Bytes → Bytes) → ScorePublicInputs → ScoreWitness → Bool
unfolding committed_fields sum_fields
enforce_commitment f sha256 inputs w =
    let coefficients = pedersen_commitment f sha256 circuit_domain in
    let acc = sum_fields f (f.constant 0) (committed_fields f w) coefficients in
    f.add acc w.blinding == inputs.score_commitment

-- Constraint 1 and the others: whether an assignment satisfies the circuit.
unfoldable pub generate_constraints : PrimeField → (Bytes → Bytes) → ScoreCircuit → Bool
unfolding enforce_vc_score enforce_volume_score enforce_counterparty_bonus enforce_tx_score
    enforce_repayment_rate_score enforce_repayment_volume_score enforce_repay_score
    enforce_composite enforce_score enforce_commitment
generate_constraints f sha256 circuit =
    let w = assigned circuit.witness in
    enforce_u32_gt_fp f w.score (f.constant circuit.public_inputs.threshold)
    && enforce_vc_score f w
    && enforce_volume_score f w
    && enforce_counterparty_bonus f w
    && enforce_tx_score f w
    && enforce_repayment_rate_score f w
    && enforce_repayment_volume_score f w
    && enforce_repay_score f w
    && enforce_composite f w
    && enforce_score f w
    && enforce_commitment f sha256 circuit.public_inputs w
