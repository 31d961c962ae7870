-- ===== src/Circuit/Soundness.antt =====
-- What a satisfied circuit (zk/circuit/src/score_circuit.rs) shows, and what it does not.
use stellar_did_credit.Base.{
  Bool, List, [], arith, leb, ltb, nat_beq_iff, refl, some, sym, true, u32_max, u64_max, ℕ, ◌&&◌,
  ◌*◌, ◌+◌, ◌<◌, ◌∙◌, ◌∷◌, ◌≡◌, ◌≤◌,
}
use stellar_did_credit.Circuit.Field.{IsLarge, PrimeField, sub-below}
use stellar_did_credit.Circuit.Commitment.{Bytes, commit, commit_from, pedersen_commitment}
use stellar_did_credit.Circuit.Inputs.{ScorePublicInputs, ScoreWitness, circuit_domain, no_witness}
use stellar_did_credit.Circuit.Constraints.{enforce_commitment, generate_constraints}
use stellar_did_credit.Circuit.Conditions.{
  IsTyped, divides, generate_constraints_exact, numbers_hold,
}
use stellar_did_credit.Circuit.Opening.{
  commit-opening, enforce_commitment_agrees, opening, record_fields,
}
use stellar_did_credit.Circuit.Score.{compute_score_pure}

and_parts : (a b : Bool) → (a && b) ≡ true → (a ≡ true) × (b ≡ true)
and_parts a b h = (ground (arith, h), ground (arith, h))

abbrev all_from : Bool → List Bool → Bool
all_from a [] = a
all_from a (b ∷ bs) = all_from (a && b) bs

starts_with : (a : Bool) (bs : List Bool) → all_from a bs ≡ true → a ≡ true
starts_with a [] h = h
starts_with a (b ∷ bs) h = (and_parts a b (starts_with (a && b) bs h)).0

-- The first and the last two of the ten conditions.
ends :
    (a b c d e p q r s t : Bool)
    → (a && b && c && d && e && p && q && r && s && t) ≡ true
    → (a ≡ true) × (s ≡ true) × (t ≡ true)
ends a b c d e p q r s t h =
    let last = and_parts (a && b && c && d && e && p && q && r && s) t h in
    let before = and_parts (a && b && c && d && e && p && q && r) s last.0 in
    let first = starts_with a (b ∷ c ∷ d ∷ e ∷ p ∷ q ∷ r ∷ []) before.0 in (first, before.1, last.1)

numbers_lem :
    (threshold score composite : ℕ)
    → ltb threshold score ≡ true
    → ltb composite 128 ≡ true
    → divides (composite * 550 + 30000) score 100 128 ≡ true
    → (threshold < score) × (299 ≤ score) × (score ≤ 998)
numbers_lem threshold score composite a b c =
    let parts = and_parts (leb (score * 100) (composite * 550 + 30000)) _ c in
    (ground (arith, a), ground (arith, parts.1), ground (arith, b, parts.0))

numbers_show :
    (threshold : ℕ) (w : ScoreWitness)
    → numbers_hold threshold w ≡ true
    → (threshold < w.score) × (299 ≤ w.score) × (w.score ≤ 998)
numbers_show threshold w h =
    let parts = ends _ _ _ _ _ _ _ _ _ _ h in
    let composite = and_parts _ (ltb w.composite 128) parts.1 in
    let score = and_parts (divides (w.composite * 550 + 30000) w.score 100 128) _ parts.2 in
    numbers_lem threshold w.score w.composite parts.0 composite.1 score.0

-- An assignment of `u32`s and `u64`s that satisfies the circuit has a score above the threshold, from
-- 299 to 998, and the commitment opens to a record with that score.
pub satisfied_shows :
    (f : PrimeField) (sha256 : Bytes → Bytes) (w : ScoreWitness) (inputs : ScorePublicInputs)
    → IsLarge f
    → IsTyped f w
    → w.last_updated ≤ u64_max
    → inputs.threshold ≤ u32_max
    → generate_constraints f sha256 (record { witness = some w; public_inputs = inputs }) ≡ true
    → (inputs.threshold < w.score)
      × (299 ≤ w.score)
      × (w.score ≤ 998)
      × (commit f (pedersen_commitment f sha256 circuit_domain) (record_fields f w) w.blinding
          ≡ inputs.score_commitment)
satisfied_shows f sha256 w inputs large typed hl ht holds =
    let exact = generate_constraints_exact f sha256 w inputs large typed ht in
    let opens = enforce_commitment_agrees f sha256 inputs w large typed hl in
    let both = and_parts (numbers_hold inputs.threshold w) _ (sym exact ∙ holds) in
    let shown = numbers_show inputs.threshold w both.0 in
    (shown.0, shown.1, shown.2, (nat_beq_iff _ _).0 (sym opens ∙ both.1))

-- A witness without any history: no points, no volume, no counterparties and no repayment, with
-- each part of the score at its cap.
abbrev pub capped_witness : ScoreWitness
capped_witness = record no_witness {
  score = 850;
  vc_weight = 40;
  tx_weight = 30;
  repayment_weight = 30;
  vc_score = 100;
  volume_score = 80;
  counterparty_bonus = 20;
  tx_score = 100;
  repayment_rate_score = 100;
  repayment_volume_score = 100;
  repay_score = 100;
  composite = 100;
}

-- The same with the blinding that opens the commitment of the public inputs.
abbrev pub forged : PrimeField → (Bytes → Bytes) → ScorePublicInputs → ScoreWitness
forged f sha256 inputs = record capped_witness {
  blinding =
      opening f (pedersen_commitment f sha256 circuit_domain) (record_fields f capped_witness)
        inputs.score_commitment;
}

forged-IsTyped :
    (f : PrimeField) (sha256 : Bytes → Bytes) (inputs : ScorePublicInputs)
    → IsLarge f
    → IsTyped f (forged f sha256 inputs)
forged-IsTyped f sha256 inputs large = record {
  score = omega arith;
  vc_count = omega arith;
  avg_counterparties = omega arith;
  repayment_rate = omega arith;
  computed_at_ledger = omega arith;
  vc_points = omega arith;
  on_time_count = omega arith;
  total_count = omega arith;
  vc_weight = omega arith;
  tx_weight = omega arith;
  repayment_weight = omega arith;
  vc_score = omega arith;
  volume_score = omega arith;
  counterparty_bonus = omega arith;
  tx_score = omega arith;
  repayment_rate_score = omega arith;
  repayment_volume_score = omega arith;
  repay_score = omega arith;
  composite = omega arith;
  q_volume = omega arith;
  q_cp = omega arith;
  q_rv = omega arith;
  blinding = sub-below f large inputs.score_commitment (
      commit_from f (f.constant 0) (pedersen_commitment f sha256 circuit_domain)
        (record_fields f capped_witness));
}

-- Whatever the public inputs are, for a threshold below 850 an assignment without any history
-- satisfies the circuit, whose true score is 300.
pub history_is_not_needed :
    (f : PrimeField) (sha256 : Bytes → Bytes) (inputs : ScorePublicInputs)
    → IsLarge f
    → inputs.threshold < 850
    → inputs.score_commitment < f.modulus
    → let w = forged f sha256 inputs in
      (generate_constraints f sha256 (record { witness = some w; public_inputs = inputs }) ≡ true)
      × (compute_score_pure w.vc_points w.tx_volume_30d w.avg_counterparties w.on_time_count
            w.total_count w.total_repaid w.vc_weight w.tx_weight w.repayment_weight
          ≡ 300)
history_is_not_needed f sha256 inputs large ht hc =
    let w = forged f sha256 inputs in
    let sum =
      commit_from f (f.constant 0) (pedersen_commitment f sha256 circuit_domain)
        (record_fields f capped_witness) in
    let typed : IsTyped f w = forged-IsTyped f sha256 inputs large in
    let opened =
      commit-opening f (pedersen_commitment f sha256 circuit_domain) (record_fields f w)
        inputs.score_commitment large hc in
    let opens : enforce_commitment f sha256 inputs w ≡ true =
      enforce_commitment_agrees f sha256 inputs w large typed (omega arith)
      ∙ ground (arith, opened) in
    let numbers : numbers_hold inputs.threshold w ≡ true = ground arith in
    (
      generate_constraints_exact f sha256 w inputs large typed (omega arith)
          ∙ rw (numbers, opens) refl,
      unfold compute_score_pure in refl,
    )
