-- ===== src/ScoreRangeVerifier/Tests.antt =====
-- The theorems on the verifier at concrete states.
use stellar_did_credit.Together.Statement.{be_value, order}
use stellar_did_credit.ScoreRangeVerifier.Alias.{consumed_again}
use stellar_did_credit.ScoreRangeVerifier.Version.{at_version, ends_at_version, version_unchecked}
use stellar_did_credit.Base.{
  Bool, [], arith, false, if◌then◌else◌, length, list_eq, nat_eq, none, put, refl, some, take, true,
  ℕ, ◌%◌, ◌&&◌, ◌==◌, ◌∷◌, ◌≡◌,
}
use stellar_did_credit.Host.{Env, err, ok}
use stellar_did_credit.ScoreRangeVerifier.State.{
  Bytes, Crypto, ScoreRangePublicInputs, Verifier, deployed, proof_already_consumed,
}
use stellar_did_credit.ScoreRangeVerifier.Key.{embedded_verification_key}
use stellar_did_credit.ScoreRangeVerifier.Encoding.{preimage, public_inputs_to_fields, zeros}
use stellar_did_credit.ScoreRangeVerifier.Groth16.{groth16_verify}
use stellar_did_credit.ScoreRangeVerifier.Contract.{here, verify_and_consume, verify_score_range}
use stellar_did_credit.ScoreRangeVerifier.Replay.{consumed_once}
use stellar_did_credit.ScoreRangeVerifier.Injective.{IsTyped, preimage-injective}
use stellar_did_credit.ScoreRangeVerifier.Pairing.{
  ChecksPairing, IsCurve, all_points, groth16_verify_lem,
}

abbrev signed : Env
signed = record {
  sequence = 10;
  timestamp = 50;
  authorized = λ _. true;
  strkey = λ _. [];
  current_contract = 0;
}

-- A host that takes every point and finds every equation true, with one byte for an address.
abbrev lenient : Crypto
lenient = record {
  sha256 = λ bytes. take 32 bytes;
  to_xdr = λ a. a ∷ [];
  neg = λ p. some p;
  g1_mul = λ p x. some p;
  g1_add = λ p q. some p;
  pairing_check = λ ps qs. some true;
}

-- A strict host: the encodings of 96 bytes are the points, and everything else is rejected.
abbrev is_point : Bytes → Bool
is_point p = length p == 96

abbrev strict : Crypto
strict = record {
  sha256 = λ bytes. take 32 bytes;
  to_xdr = λ a. a ∷ [];
  neg = λ p. if is_point p then some p else none;
  g1_mul = λ p x. if is_point p then some p else none;
  g1_add = λ p q. if is_point p && is_point q then some p else none;
  pairing_check = λ ps qs. some true;
}

strict-IsCurve : IsCurve strict is_point
strict-IsCurve = record {
  multiplies = λ p x h. (p, ground (arith, h), h);
  adds = λ p q h k. (p, ground (arith, h, k), h);
}

key_points : all_points is_point embedded_verification_key.gamma_abc ≡ true
unfolding embedded_verification_key
key_points = refl

abbrev inputs : ScoreRangePublicInputs
inputs = record {
  threshold = 700;
  subject = 3;
  credit_oracle_id = 9;
  score_commitment = zeros 32;
  snapshot_ledger = 12345;
  domain_separator = zeros 32;
}

inputs-IsTyped : IsTyped inputs
inputs-IsTyped = record {
  threshold_fits = omega arith;
  ledger_fits = omega arith;
  commitment_length = refl;
  separator_length = refl;
}

abbrev proof : Bytes
proof = zeros 384

-- Circuit version 2, which the contract does not embed.
abbrev upgraded : Verifier
upgraded = record deployed { admin = some 1; vk_hash = some (zeros 32); circuit_version = some 2 }

abbrev nonce : Bytes
nonce = zeros 32

valid_lem : groth16_verify lenient proof inputs ≡ some true
unfolding groth16_verify embedded_verification_key
valid_lem = refl

abbrev consumed : Verifier
consumed = record upgraded {
  consumed_proof = put (lenient.sha256 (zeros 32)) true upgraded.consumed_proof;
}

key_lem : lenient.sha256 (preimage lenient proof inputs nonce) ≡ zeros 32
unfolding preimage
key_lem = refl

consumed_lem : verify_and_consume lenient 7 proof inputs nonce signed upgraded ≡ ok true consumed
unfolding verify_and_consume groth16_verify embedded_verification_key
consumed_lem = refl

consumed_once_example :
    (groth16_verify lenient proof inputs ≡ some true)
    × (signed.authorized 7 ≡ true)
    × (verify_and_consume lenient 8 proof inputs nonce signed consumed ≡ err proof_already_consumed)
consumed_once_example =
    consumed_once lenient 7 8 proof inputs nonce signed signed upgraded consumed_lem here refl

preimage-injective_example : (proof ≡ proof) × (inputs ≡ inputs) × (nonce ≡ nonce)
preimage-injective_example =
    preimage-injective lenient (λ a b xs ys e. (ground arith, ground arith)) proof proof inputs
      inputs nonce nonce refl refl inputs-IsTyped inputs-IsTyped refl

groth16_verify_lem_example :
    ChecksPairing strict embedded_verification_key proof
      (public_inputs_to_fields strict inputs)
      (groth16_verify strict proof inputs)
groth16_verify_lem_example =
    groth16_verify_lem strict is_point proof inputs strict-IsCurve key_points refl

version_unchecked_example :
    (verify_and_consume lenient 7 proof inputs nonce signed (at_version (some 3) upgraded)
      ≡ ends_at_version (some 3) (verify_and_consume lenient 7 proof inputs nonce signed upgraded))
    × (verify_score_range lenient proof inputs signed (at_version (some 3) upgraded)
        ≡ ok false (at_version (some 3) upgraded))
version_unchecked_example = version_unchecked lenient 7 proof inputs nonce signed upgraded (some 3)

-- A host that reads a scalar highest byte first and reduces it, and hashes every list to itself.
abbrev reads_scalar : Bytes → ℕ
reads_scalar bytes = be_value 0 bytes % order

abbrev reducing : Crypto
reducing = record {
  sha256 = λ bytes. bytes;
  to_xdr = λ a. a ∷ [];
  neg = λ p. some p;
  g1_mul = λ p x. some (reads_scalar x ∷ []);
  g1_add = λ p q. some q;
  pairing_check = λ ps qs. some (length ps == length qs);
}

-- The order of the field in 32 bytes: the same scalar as 32 zeros.
abbrev order_bytes : Bytes
order_bytes =
    0x73 ∷ 0xED ∷ 0xA7 ∷ 0x53 ∷ 0x29 ∷ 0x9D ∷ 0x7D ∷ 0x48 ∷ 0x33 ∷ 0x39 ∷ 0xD8 ∷ 0x08 ∷ 0x09 ∷ 0xA1
    ∷ 0xD8 ∷ 0x05 ∷ 0x53 ∷ 0xBD ∷ 0xA4 ∷ 0x02 ∷ 0xFF ∷ 0xFE ∷ 0x5B ∷ 0xFE ∷ 0xFF ∷ 0xFF ∷ 0xFF
    ∷ 0xFF ∷ 0x00 ∷ 0x00 ∷ 0x00 ∷ 0x01 ∷ []

abbrev reduced : Verifier
reduced = record upgraded {
  consumed_proof = put (preimage reducing proof inputs nonce) true upgraded.consumed_proof;
}

reduced_lem : verify_and_consume reducing 7 proof inputs nonce signed upgraded ≡ ok true reduced
unfolding verify_and_consume groth16_verify embedded_verification_key
reduced_lem = refl

other_is_fresh :
    reduced.consumed_proof
      (preimage reducing proof (record inputs { score_commitment = order_bytes }) nonce)
    ≡ none
unfolding preimage
other_is_fresh = refl

consumed_again_example :
    verify_and_consume reducing 8 proof
      (record inputs { score_commitment = order_bytes })
      nonce
      signed
      reduced
    ≡ ok true (record reduced {
      consumed_proof =
          put
            (preimage reducing proof (record inputs { score_commitment = order_bytes }) nonce)
            true
            reduced.consumed_proof;
    })
consumed_again_example =
    consumed_again reducing reads_scalar (λ p x y e. rw e refl) 7 8 proof inputs order_bytes nonce
      signed signed upgraded refl reduced_lem here refl other_is_fresh
