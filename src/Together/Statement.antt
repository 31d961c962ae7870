-- ===== src/Together/Statement.antt =====
-- The public inputs that contracts/score-range-verifier/src/lib.rs checks a proof against, and those
-- that zk/circuit/src/lib.rs makes it for.
use stellar_did_credit.ScoreRangeVerifier.State.{Bytes, Crypto, ScoreRangePublicInputs}
use stellar_did_credit.Circuit.Inputs.{ScorePublicInputs, new_inputs}
use stellar_did_credit.Circuit.Field.{IsLarge, PrimeField, constant_lem}
use stellar_did_credit.Base.{
  List, [], ap, arith, u32_max, ℕ, ◌%◌, ◌*◌, ◌+◌, ◌<◌, ◌∙◌, ◌∷◌, ◌≡◌, ◌≢◌, ◌≤◌,
}
use stellar_did_credit.ScoreRangeVerifier.Encoding.{public_inputs_to_fields, u32_to_field}

-- The number that bytes stand for, lowest byte first.
abbrev pub le_value : List ℕ → ℕ
le_value [] = 0
le_value (b ∷ bytes) = b + 256 * le_value bytes

-- The number that bytes stand for, highest byte first.
abbrev pub be_value : ℕ → List ℕ → ℕ
be_value acc [] = acc
be_value acc (b ∷ bytes) = be_value (acc * 256 + b) bytes

-- The order of the scalar field of BLS12-381.
abbrev pub order : ℕ
order = 52435875175126190479447740508185965837690552500527637822603658699938581184513

-- The bytes of a threshold are the number, lowest byte first.
u32_to_field-le : (n : ℕ) → n ≤ u32_max → le_value (u32_to_field n) ≡ n
unfolding u32_to_field
u32_to_field-le n h = omega arith

-- Read from the other end, only those of 0 stand for the same element of the field.
u32_to_field-be : (n : ℕ) → n ≤ u32_max → be_value 0 (u32_to_field n) % order ≡ n → n ≡ 0
unfolding u32_to_field
u32_to_field-be n h e = omega (arith, e)

-- The host's `Fr::from_bytes` reads the highest byte first and reduces.
abbrev pub read_fields : List Bytes → List ℕ
read_fields [] = []
read_fields (bytes ∷ fields) = be_value 0 bytes % order ∷ read_fields fields

-- The first entry of a list, or 0.
head_or_zero : List ℕ → ℕ
head_or_zero [] = 0
head_or_zero (x ∷ xs) = x

-- For a positive `u32` threshold, the field elements that the contract checks a proof against are
-- never those of the circuit for the same threshold: the contract writes the lowest byte first, and
-- the host reads the highest byte first.
pub inputs_differ :
    (f : PrimeField) (crypto : Crypto) (inputs : ScoreRangePublicInputs)
    (public_inputs : ScorePublicInputs)
    → IsLarge f
    → inputs.threshold ≤ u32_max
    → 0 < inputs.threshold
    → public_inputs.threshold ≡ inputs.threshold
    → read_fields (public_inputs_to_fields crypto inputs) ≢ new_inputs f public_inputs
unfolding public_inputs_to_fields new_inputs head_or_zero
inputs_differ f crypto inputs public_inputs large small positive same e =
    let heads : be_value 0 (u32_to_field inputs.threshold) % order
        ≡ f.constant public_inputs.threshold =
      ap head_or_zero e in
    let constant = constant_lem f large public_inputs.threshold (omega arith) in
    let none = u32_to_field-be inputs.threshold small (heads ∙ constant ∙ same) in
    absurd (omega (arith, none))
