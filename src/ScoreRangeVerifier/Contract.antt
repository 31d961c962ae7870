-- ===== src/ScoreRangeVerifier/Contract.antt =====
-- The entry points of contracts/score-range-verifier/src/lib.rs, and those that can write as one
-- relation between the states before and after a successful invocation.
use stellar_did_credit.Base.{
  Bool, Option, false, if◌then◌else◌, is_some, length, list_eq, nat_eq, not, put, some, true,
  unwrap_or, ℕ, ◌==◌, ◌||◌, ◌∷◌, ◌≡◌,
}
use stellar_did_credit.Host.{
  Address, Env, expect, fail_if, gets, modify, ok, pure, require_auth, ◌>>=◌, ◌>>◌,
}
use stellar_did_credit.ScoreRangeVerifier.State.{
  Bytes, Crypto, Event, Method, ScoreRangePublicInputs, Verifier, already_initialized,
  invalid_proof_size, not_initialized, proof_already_consumed, proof_size, the_circuit_version,
}
use stellar_did_credit.ScoreRangeVerifier.Encoding.{preimage}
use stellar_did_credit.ScoreRangeVerifier.Groth16.{groth16_verify}

unfoldable pub initialize : Address → Bytes → ℕ → Method (Unit {0})
initialize admin vk_hash circuit_version = do
  stored ← gets (λ s. s.admin)
  fail_if (is_some stored) already_initialized
  require_auth admin
  modify (λ s. record s { admin = some admin })
  modify (λ s. record s { vk_hash = some vk_hash })
  modify (λ s. record s { circuit_version = some circuit_version })
  modify (λ s. record s { events = Event.init admin vk_hash circuit_version ∷ s.events })

unfoldable pub verify_score_range : Crypto → Bytes → ScoreRangePublicInputs → Method Bool
verify_score_range crypto proof public_inputs = do
  stored ← gets (λ s. s.admin)
  version ← gets (λ s. unwrap_or s.circuit_version 0)
  if not (length proof == proof_size)
        || not (is_some stored)
        || not (version == the_circuit_version)
      then pure false
      else expect (groth16_verify crypto proof public_inputs)

-- `storage().persistent().set(&key, &true)`, if the proof is valid
unfoldable pub consume : Bytes → Bool → Method Bool
consume key valid =
    if valid
    then (do modify (λ s. record s { consumed_proof = put key true s.consumed_proof }); pure true)
    else pure false

unfoldable pub verify_and_consume :
    Crypto → Address → Bytes → ScoreRangePublicInputs → Bytes → Method Bool
unfolding preimage consume
verify_and_consume crypto consumer proof public_inputs nonce = do
  require_auth consumer
  stored ← gets (λ s. s.admin)
  fail_if (not (is_some stored)) not_initialized
  fail_if (not (length proof == proof_size)) invalid_proof_size
  let key = crypto.sha256 (preimage crypto proof public_inputs nonce)
  consumed ← gets (λ s. s.consumed_proof key)
  fail_if (is_some consumed) proof_already_consumed
  valid ← expect (groth16_verify crypto proof public_inputs)
  consume key valid

unfoldable pub get_vk_hash : Verifier → Option Bytes
get_vk_hash s = s.vk_hash

unfoldable pub get_circuit_version : Verifier → Option ℕ
get_circuit_version s = s.circuit_version

unfoldable pub get_admin : Verifier → Option Address
get_admin s = s.admin

pub data Request : Type 0 where
  initialize_with : Address → Bytes → ℕ → Request
  consume_one : Address → Bytes → ScoreRangePublicInputs → Bytes → Request

unfoldable pub run : Crypto → Request → Method (Unit {0})
run crypto (initialize_with a h v) = initialize a h v
run crypto (consume_one a proof inputs nonce) =
    verify_and_consume crypto a proof inputs nonce >> pure tt

-- One committed invocation.
pub data Step (crypto : Crypto) (s t : Verifier) : Type 0 where
  invocation : (req : Request) (env : Env) → run crypto req env s ≡ ok tt t → Step crypto s t

pub data Reach (crypto : Crypto) (s : Verifier) : Verifier → Type 0 where
  here : Reach crypto s s
  next : {t u : Verifier} → Reach crypto s t → Step crypto t u → Reach crypto s u
