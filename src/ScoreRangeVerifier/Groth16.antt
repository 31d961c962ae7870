-- ===== src/ScoreRangeVerifier/Groth16.antt =====
-- The pairing check of contracts/score-range-verifier/src/lib.rs.
use stellar_did_credit.Base.{
  Bool, List, Option, [], drop, false, get_elem?, if◌then◌else◌, leb, length, nat_eq, none, not,
  some, take, ℕ, ◌+◌, ◌-◌, ◌==◌, ◌∷◌,
}
use stellar_did_credit.ScoreRangeVerifier.State.{
  Bytes, Crypto, ScoreRangePublicInputs, VerificationKey, proof_size,
}
use stellar_did_credit.ScoreRangeVerifier.Key.{embedded_verification_key}
use stellar_did_credit.ScoreRangeVerifier.Encoding.{public_inputs_to_fields}

infixl 5 ◌>>=◌
-- A step that may trap.
abbrev pub ◌>>=◌ : {A B : Type 0} → Option A → (A → Option B) → Option B
none >>= f = none
some a >>= f = f a

-- The loop over the public inputs, from input `i` on.
unfoldable pub add_inputs : Crypto → VerificationKey → List Bytes → ℕ → Bytes → Option Bytes
add_inputs crypto vk [] i combined = some combined
add_inputs crypto vk (input ∷ inputs) i combined = do
  ic_point ← get_elem? vk.gamma_abc (i + 1)
  term ← crypto.g1_mul ic_point input
  combined' ← crypto.g1_add combined term
  add_inputs crypto vk inputs (i + 1) combined'

unfoldable pub compute_public_inputs_combined : Crypto → VerificationKey → List Bytes → Option Bytes
unfolding add_inputs
compute_public_inputs_combined crypto vk public_inputs = do
  first ← get_elem? vk.gamma_abc 0
  add_inputs crypto vk public_inputs 0 first

-- `proof.slice(from..to).try_into().unwrap()`, for a target of `to - from` bytes
unfoldable pub slice : ℕ → ℕ → Bytes → Option Bytes
slice from to proof =
    if leb to (length proof) then some (take (to - from) (drop from proof)) else none

-- `groth16_verify` after the check of the length.
unfoldable pub check_pairing : Crypto → VerificationKey → Bytes → List Bytes → Option Bool
unfolding slice compute_public_inputs_combined
check_pairing crypto vk proof fields = do
  a ← slice 0 96 proof
  b ← slice 96 288 proof
  c ← slice 288 384 proof
  combined ← compute_public_inputs_combined crypto vk fields
  neg_a ← crypto.neg a
  crypto.pairing_check (neg_a ∷ vk.alpha ∷ combined ∷ c ∷ [])
      (b ∷ vk.beta ∷ vk.gamma ∷ vk.delta ∷ [])

unfoldable pub groth16_verify : Crypto → Bytes → ScoreRangePublicInputs → Option Bool
unfolding check_pairing public_inputs_to_fields embedded_verification_key
groth16_verify crypto proof public_inputs =
    if not (length proof == proof_size)
    then some false
    else check_pairing crypto embedded_verification_key proof
        (public_inputs_to_fields crypto public_inputs)
