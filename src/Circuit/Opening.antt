-- ===== src/Circuit/Opening.antt =====
-- The commitment constraint of zk/circuit/src/score_circuit.rs against the commitment of
-- zk/circuit/src/commitment.rs.
use native.Mathlib.Nat.{add-mod_right, add-mod-mod, mod-eq_of_lt, mod-lt, mul_comm}
use stellar_did_credit.Base.{
  List, [], ap, arith, if◌then◌else◌, nat_eq, refl, u32_max, u64_max, ℕ, ◌%◌, ◌+◌, ◌-◌, ◌<◌, ◌==◌,
  ◌∙◌, ◌∷◌, ◌≡◌, ◌≤◌,
}
use stellar_did_credit.Circuit.Field.{IsLarge, PrimeField, constant_lem}
use stellar_did_credit.Circuit.Bits.{uint32_to_fp_lem, uint64_to_fp_lem}
use stellar_did_credit.Circuit.Range.{boolean_to_fp}
use stellar_did_credit.Circuit.Commitment.{Bytes, commit, commit_from, pedersen_commitment}
use stellar_did_credit.Circuit.Inputs.{ScorePublicInputs, ScoreWitness, circuit_domain}
use stellar_did_credit.Circuit.Constraints.{
  as_u64, committed_fields, enforce_commitment, sum_fields,
}
use stellar_did_credit.Circuit.Conditions.{IsTyped}

-- The fields of the record that a holder of the witness commits to.
abbrev pub record_fields : PrimeField → ScoreWitness → List ℕ
record_fields f w =
    w.score
    ∷ w.vc_count
    ∷ as_u64 w.tx_volume_30d
    ∷ w.avg_counterparties
    ∷ w.repayment_rate
    ∷ w.last_updated
    ∷ w.computed_at_ledger
    ∷ (if w.stale then 1 else 0)
    ∷ []

mul-commutes : (f : PrimeField) (a b : ℕ) → IsLarge f → f.mul a b ≡ f.mul b a
mul-commutes f a b large = rw (large.mul_law a b, large.mul_law b a, mul_comm a b) refl

sum_fields_lem :
    (f : PrimeField) (large : IsLarge f) (acc : ℕ) (fields coefficients : List ℕ)
    → sum_fields f acc fields coefficients ≡ commit_from f acc coefficients fields
unfolding sum_fields commit_from
sum_fields_lem f large acc [] [] = refl
sum_fields_lem f large acc [] (c ∷ cs) = refl
sum_fields_lem f large acc (x ∷ xs) [] = refl
sum_fields_lem f large acc (x ∷ xs) (c ∷ cs) =
    rw (mul-commutes f x c large) (sum_fields_lem f large (f.add acc (f.mul c x)) xs cs)

committed_fields_lem :
    (f : PrimeField) (w : ScoreWitness)
    → IsLarge f
    → IsTyped f w
    → w.last_updated ≤ u64_max
    → committed_fields f w ≡ record_fields f w
unfolding committed_fields boolean_to_fp
committed_fields_lem f w large t h =
    let word = λ (v : ℕ) (k : v ≤ u32_max). uint32_to_fp_lem f v large (omega arith) in
    rw
      (
        word w.score t.score,
        word w.vc_count t.vc_count,
        uint64_to_fp_lem f (as_u64 w.tx_volume_30d) large (omega arith),
        word w.avg_counterparties t.avg_counterparties,
        word w.repayment_rate t.repayment_rate,
        uint64_to_fp_lem f w.last_updated large (omega arith),
        word w.computed_at_ledger t.computed_at_ledger,
        constant_lem f large (if w.stale then 1 else 0) (ground arith),
      )
      refl

-- The circuit accepts a commitment exactly if it is what `commit` returns for the fields of the
-- record and the blinding.
pub enforce_commitment_agrees :
    (f : PrimeField) (sha256 : Bytes → Bytes) (inputs : ScorePublicInputs) (w : ScoreWitness)
    → IsLarge f
    → IsTyped f w
    → w.last_updated ≤ u64_max
    → enforce_commitment f sha256 inputs w ≡ (
        commit f (pedersen_commitment f sha256 circuit_domain) (record_fields f w) w.blinding
        == inputs.score_commitment)
unfolding enforce_commitment commit
enforce_commitment_agrees f sha256 inputs w large t h =
    let coefficients = pedersen_commitment f sha256 circuit_domain in
    rw
      (
        committed_fields_lem f w large t h,
        sum_fields_lem f large (f.constant 0) (record_fields f w) coefficients,
      )
      refl

-- The blinding that opens a commitment to the fields.
abbrev pub opening : PrimeField → List ℕ → List ℕ → ℕ → ℕ
opening f coefficients fields target =
    f.sub target (commit_from f (f.constant 0) coefficients fields)

commit_from-lt :
    (f : PrimeField) (large : IsLarge f) (acc : ℕ) (coefficients fields : List ℕ)
    → acc < f.modulus
    → commit_from f acc coefficients fields < f.modulus
unfolding commit_from
commit_from-lt f large acc [] fields h = h
commit_from-lt f large acc (c ∷ cs) [] h = h
commit_from-lt f large acc (c ∷ cs) (x ∷ xs) h =
    commit_from-lt f large (f.add acc (f.mul c x)) cs xs
      (rw (large.add_law acc (f.mul c x)) (mod-lt (acc + f.mul c x) (omega arith)))

-- Every element of the field is a commitment to every list of fields, for one blinding or another:
-- the commitment binds its maker to nothing.
pub commit-opening :
    (f : PrimeField) (coefficients fields : List ℕ) (target : ℕ)
    → IsLarge f
    → target < f.modulus
    → commit f coefficients fields (opening f coefficients fields target) ≡ target
unfolding commit
commit-opening f coefficients fields target large h =
    let sum = commit_from f (f.constant 0) coefficients fields in
    let small : sum < f.modulus =
      commit_from-lt f large (f.constant 0) coefficients fields
        (omega (arith, constant_lem f large 0 (omega arith))) in
    let whole : sum + (target + (f.modulus - sum)) ≡ target + f.modulus = omega arith in
    large.add_law sum (f.sub target sum)
    ∙ ap (λ t. (sum + t) % f.modulus) (large.sub_law target sum)
    ∙ add-mod-mod sum (target + (f.modulus - sum)) f.modulus
    ∙ ap (λ t. t % f.modulus) whole
    ∙ add-mod_right target f.modulus
    ∙ mod-eq_of_lt h
