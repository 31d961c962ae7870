-- ===== src/ScoreRangeVerifier/Version.antt =====
-- What the stored circuit version of contracts/score-range-verifier/src/lib.rs decides.
use stellar_did_credit.Base.{
  Option, Option-cases, arith, false, if◌then◌else◌, inl, inr, nat_eq, some, unwrap_or, ℕ, ◌==◌,
  ◌≡◌,
}
use stellar_did_credit.Host.{Address, Env, Outcome, err, ok, trap}
use stellar_did_credit.ScoreRangeVerifier.State.{
  Bytes, Crypto, ScoreRangePublicInputs, Verifier, VerifierError, the_circuit_version,
}
use stellar_did_credit.ScoreRangeVerifier.Contract.{verify_and_consume, verify_score_range}
use stellar_did_credit.ScoreRangeVerifier.Groth16.{groth16_verify}

-- The same contract with another stored circuit version.
abbrev pub at_version : Option ℕ → Verifier → Verifier
at_version v s = record s { circuit_version = v }

-- The same end with another stored circuit version.
abbrev pub ends_at_version :
    {A : Type 0} → Option ℕ → Outcome VerifierError Verifier A → Outcome VerifierError Verifier A
ends_at_version v (ok a s) = ok a (at_version v s)
ends_at_version v (err e) = err e
ends_at_version v trap = trap

-- `verify_and_consume` never looks at the stored circuit version: with any other one it ends the
-- same way and leaves the same state but for the version. `verify_score_range` does: with another
-- version than that of the embedded key it returns false for every proof, and with that version
-- what it returns for a contract of version 1.
pub version_unchecked :
    (crypto : Crypto) (a : Address) (proof : Bytes) (inputs : ScoreRangePublicInputs)
    (nonce : Bytes) (env : Env) (s : Verifier) (v : Option ℕ)
    → (verify_and_consume crypto a proof inputs nonce env (at_version v s)
        ≡ ends_at_version v (verify_and_consume crypto a proof inputs nonce env s))
      × (verify_score_range crypto proof inputs env (at_version v s) ≡ (
          if unwrap_or v 0 == the_circuit_version
          then ends_at_version v
              (verify_score_range crypto proof inputs env (at_version (some the_circuit_version) s))
          else ok false (at_version v s)))
unfolding verify_and_consume verify_score_range
version_unchecked crypto a proof inputs nonce env s v =
    elim (Option-cases (groth16_verify crypto proof inputs)) [
      | inl e ↦ (ground arith, ground arith)
      | inr (valid, e) ↦ (ground arith, ground arith)
    ]
