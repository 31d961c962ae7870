-- ===== src/Together/Tests/Inputs.antt =====
-- The public inputs of the verifier and of the circuit at concrete values.
use stellar_did_credit.Base.{[], arith, refl, some, take, true, ◌%◌, ◌*◌, ◌+◌, ◌-◌, ◌∷◌, ◌≢◌}
use stellar_did_credit.ScoreRangeVerifier.State.{Crypto, ScoreRangePublicInputs}
use stellar_did_credit.ScoreRangeVerifier.Encoding.{public_inputs_to_fields}
use stellar_did_credit.Circuit.Field.{IsLarge, PrimeField, to_bits_le}
use stellar_did_credit.Circuit.Inputs.{ScorePublicInputs, new_inputs}
use stellar_did_credit.Together.Statement.{inputs_differ, order, read_fields}

-- The field and the verifier's host for the statement of both.
abbrev residues : PrimeField
residues = record {
  modulus = order;
  modulus_bit_size = 255;
  constant = λ n. n % order;
  add = λ a b. (a + b) % order;
  sub = λ a b. (a + (order - b)) % order;
  mul = λ a b. (a * b) % order;
  to_bits_le = to_bits_le 255;
  from_le_bytes_mod_order = λ bytes. 7;
}

residues-IsLarge : IsLarge residues
residues-IsLarge = record {
  large = omega arith;
  covered = omega arith;
  constant_law = λ n. refl;
  add_law = λ a b. refl;
  sub_law = λ a b. refl;
  mul_law = λ a b. refl;
  bits_law = λ x h. refl;
}

abbrev one_byte : Crypto
one_byte = record {
  sha256 = λ bytes. take 32 bytes;
  to_xdr = λ a. a ∷ [];
  neg = λ p. some p;
  g1_mul = λ p x. some p;
  g1_add = λ p q. some p;
  pairing_check = λ ps qs. some true;
}

abbrev checked_inputs : ScoreRangePublicInputs
checked_inputs = record {
  threshold = 600;
  subject = 3;
  credit_oracle_id = 9;
  score_commitment = [];
  snapshot_ledger = 12345;
  domain_separator = [];
}

abbrev proved_inputs : ScorePublicInputs
proved_inputs = record {
  threshold = 600;
  subject = 1;
  credit_oracle_id = 2;
  score_commitment = 12347;
  snapshot_ledger = 12345;
  domain_separator = 3;
}

inputs_differ_example :
    read_fields (public_inputs_to_fields one_byte checked_inputs)
    ≢ new_inputs residues proved_inputs
inputs_differ_example =
    inputs_differ residues one_byte checked_inputs proved_inputs residues-IsLarge (omega arith)
      (omega arith) refl
