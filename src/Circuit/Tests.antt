-- ===== src/Circuit/Tests.antt =====
-- The theorems on the circuit at concrete inputs.
use stellar_did_credit.Base.{
  arith, nat_eq, some, true, false, pos, refl, ℕ, ◌≡◌, ◌<◌, ◌≤◌, ◌&&◌, ◌∙◌, ltb, ◌^◌, ◌%◌, ◌+◌, ◌-◌,
  ◌*◌,
}
use stellar_did_credit.CreditOracle.Scoring.{
  composite_score, repayment_rate_score, repayment_score, transaction_score, volume_units,
}
use stellar_did_credit.Circuit.Field.{to_bits_le, IsLarge, PrimeField}
use stellar_did_credit.Circuit.Range.{
  enforce_u32_gt, enforce_u32_gt_fp, enforce_u32_gte, enforce_u32_less_than, enforce_u32_range,
}
use stellar_did_credit.Circuit.Checks.{range_checks_decide}
use stellar_did_credit.Circuit.Commitment.{Bytes, commit, pedersen_commitment, coefficient}
use stellar_did_credit.Circuit.Inputs.{ScorePublicInputs, ScoreWitness, circuit_domain, no_witness}
use stellar_did_credit.Circuit.Constraints.{generate_constraints, enforce_commitment}
use stellar_did_credit.Circuit.Conditions.{IsTyped, generate_constraints_exact, numbers_hold}
use stellar_did_credit.Circuit.Opening.{commit-opening, opening, record_fields}
use stellar_did_credit.Circuit.Score.{compute_score_pure}
use stellar_did_credit.Circuit.Soundness.{forged, history_is_not_needed, satisfied_shows}
use stellar_did_credit.Circuit.Honest.{IsHonest, IsHonestTyped}
use stellar_did_credit.Circuit.Completeness.{honest_accepted}

abbrev order : ℕ
order = 52435875175126190479447740508185965837690552500527637822603658699938581184513

-- The scalar field of BLS12-381, with a stand-in for the reduction of a digest.
abbrev scalar_field : PrimeField
scalar_field = record {
  modulus = order;
  modulus_bit_size = 255;
  constant = λ n. n % order;
  add = λ a b. (a + b) % order;
  sub = λ a b. (a + (order - b)) % order;
  mul = λ a b. (a * b) % order;
  to_bits_le = to_bits_le 255;
  from_le_bytes_mod_order = λ bytes. 7;
}

abbrev digest : Bytes → Bytes
digest bytes = bytes

scalar_field-IsLarge : IsLarge scalar_field
scalar_field-IsLarge = record {
  large = omega arith;
  covered = omega arith;
  constant_law = λ n. refl;
  add_law = λ a b. refl;
  sub_law = λ a b. refl;
  mul_law = λ a b. refl;
  bits_law = λ x h. refl;
}

abbrev statement : ScorePublicInputs
statement = record {
  threshold = 600;
  subject = 1;
  credit_oracle_id = 2;
  score_commitment = 12347;
  snapshot_ledger = 12345;
  domain_separator = 3;
}

-- A history of 50 points and 50 of 100 repayments on time.
abbrev witness : ScoreWitness
witness = record no_witness {
  score = 668;
  vc_count = 10;
  tx_volume_30d = pos 50000000000;
  avg_counterparties = 10;
  vc_points = 50;
  on_time_count = 50;
  total_count = 100;
  total_repaid = pos 20000000000;
  vc_weight = 40;
  tx_weight = 30;
  repayment_weight = 30;
  vc_score = 50;
  volume_score = 80;
  counterparty_bonus = 2;
  tx_score = 82;
  repayment_rate_score = 50;
  repayment_volume_score = 100;
  repay_score = 75;
  composite = 67;
  q_volume = 500;
  q_cp = 2;
  q_rv = 200;
  blinding = 42;
}

abbrev own_statement : ScorePublicInputs
own_statement = record statement { score_commitment = 350000004858 }

witness-IsTyped : IsTyped scalar_field witness
witness-IsTyped = record {
  score = omega arith;
  vc_count = omega arith;
  avg_counterparties = omega arith;
  repayment_rate = omega arith;
  computed_at_ledger = omega arith;
  vc_points = omega arith;
  on_time_count = omega arith;
  total_count = omega arith;
  vc_weight = omega arith;
  tx_weight = omega arith;
  repayment_weight = omega arith;
  vc_score = omega arith;
  volume_score = omega arith;
  counterparty_bonus = omega arith;
  tx_score = omega arith;
  repayment_rate_score = omega arith;
  repayment_volume_score = omega arith;
  repay_score = omega arith;
  composite = omega arith;
  q_volume = omega arith;
  q_cp = omega arith;
  q_rv = omega arith;
  blinding = omega arith;
}

range_checks_decide_example :
    (enforce_u32_less_than scalar_field 650 600 ≡ false)
    × (enforce_u32_gte scalar_field 650 600 ≡ true)
    × (enforce_u32_gt scalar_field 650 600 ≡ true)
    × (enforce_u32_gt_fp scalar_field 650 600 ≡ true)
    × ((bits : ℕ) → enforce_u32_range 650 bits ≡ ltb 650 (2 ^ bits))
range_checks_decide_example =
    range_checks_decide scalar_field 650 600 scalar_field-IsLarge (omega arith) (omega arith)

commit-opening_example :
    let coefficients = pedersen_commitment scalar_field digest circuit_domain in
    commit scalar_field coefficients
      (record_fields scalar_field witness)
      (opening scalar_field coefficients (record_fields scalar_field witness) 5)
    ≡ 5
commit-opening_example =
    commit-opening scalar_field (pedersen_commitment scalar_field digest circuit_domain)
      (record_fields scalar_field witness) 5 scalar_field-IsLarge (omega arith)

history_is_not_needed_example :
    let w = forged scalar_field digest statement in
    (generate_constraints scalar_field digest
        (record { witness = some w; public_inputs = statement })
      ≡ true)
    × (compute_score_pure w.vc_points w.tx_volume_30d w.avg_counterparties w.on_time_count
          w.total_count w.total_repaid w.vc_weight w.tx_weight w.repayment_weight
        ≡ 300)
history_is_not_needed_example =
    history_is_not_needed scalar_field digest statement scalar_field-IsLarge (omega arith)
      (omega arith)

witness-IsHonest : IsHonest witness
unfolding compute_score_pure volume_units transaction_score repayment_rate_score repayment_score
    composite_score
witness-IsHonest = record {
  vc_score = refl;
  q_volume = refl;
  volume_score = refl;
  q_cp = refl;
  counterparty_bonus = refl;
  tx_score = refl;
  repayment_rate_score = refl;
  q_rv = refl;
  repayment_volume_score = refl;
  repay_score = refl;
  composite = refl;
  score = refl;
}

witness-IsHonestTyped : IsHonestTyped scalar_field witness
witness-IsHonestTyped = record {
  typed = witness-IsTyped;
  honest = witness-IsHonest;
  on_time = omega arith;
  weighting = (omega arith, omega arith, omega arith, refl);
  volume = omega arith;
  repaid = omega arith;
  last_updated = omega arith;
}

witness_opens :
    commit scalar_field
      (pedersen_commitment scalar_field digest circuit_domain)
      (record_fields scalar_field witness)
      witness.blinding
    ≡ own_statement.score_commitment
unfolding commit pedersen_commitment coefficient
witness_opens = refl

honest_accepted_example :
    let w = witness in
    generate_constraints scalar_field digest
      (record { witness = some w; public_inputs = own_statement })
    ≡ (ltb 600 (
          compute_score_pure w.vc_points w.tx_volume_30d w.avg_counterparties w.on_time_count
            w.total_count w.total_repaid w.vc_weight w.tx_weight w.repayment_weight)
        && true)
honest_accepted_example =
    honest_accepted scalar_field digest witness own_statement scalar_field-IsLarge
      witness-IsHonestTyped (omega arith) witness_opens

witness_accepted :
    generate_constraints scalar_field digest
      (record { witness = some witness; public_inputs = own_statement })
    ≡ true
witness_accepted = honest_accepted_example ∙ unfold compute_score_pure in refl

satisfied_shows_example :
    (600 < 668)
    × (299 ≤ 668)
    × (668 ≤ 998)
    × (commit scalar_field
          (pedersen_commitment scalar_field digest circuit_domain)
          (record_fields scalar_field witness)
          42
        ≡ 350000004858)
satisfied_shows_example =
    satisfied_shows scalar_field digest witness own_statement scalar_field-IsLarge witness-IsTyped
      (omega arith) (omega arith) witness_accepted

generate_constraints_exact_example :
    generate_constraints scalar_field digest
      (record { witness = some witness; public_inputs = own_statement })
    ≡ (numbers_hold 600 witness && enforce_commitment scalar_field digest own_statement witness)
generate_constraints_exact_example =
    generate_constraints_exact scalar_field digest witness own_statement scalar_field-IsLarge
      witness-IsTyped (omega arith)

-- A score above the range of the oracle satisfies the conditions.
abbrev inflated : ScoreWitness
inflated = record no_witness { score = 998; vc_score = 100; vc_weight = 127; composite = 127 }

inflated_holds : numbers_hold 997 inflated ≡ true
inflated_holds = refl
