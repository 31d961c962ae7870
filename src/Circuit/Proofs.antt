-- ===== src/Circuit/Proofs.antt =====
-- The proofs of zk/circuit/src/lib.rs. Groth16 of ark-groth16 is a parameter.
use stellar_did_credit.Base.{Bool, List, Option, [], none, some, ℕ, ◌∷◌}
use stellar_did_credit.Circuit.Field.{PrimeField}
use stellar_did_credit.Circuit.Inputs.{ScoreCircuit, ScorePublicInputs, ScoreWitness}

-- `none` where ark-groth16 returns a `SynthesisError`. The random numbers are an argument.
pub record Groth16 : Type 1 where
  pub Proof : Type 0
  pub ProvingKey : Type 0
  pub VerifyingKey : Type 0
  pub prove : ProvingKey → ScoreCircuit → ℕ → Option Proof
  pub verify : VerifyingKey → List ℕ → Proof → Option Bool
  pub circuit_specific_setup : ScoreCircuit → ℕ → Option (ProvingKey × VerifyingKey)

unfoldable pub generate_proof :
    (g : Groth16) → ScoreWitness → ScorePublicInputs → g.ProvingKey → ℕ → Option g.Proof
generate_proof g witness public_inputs pk rng =
    g.prove pk (record { witness = some witness; public_inputs = public_inputs }) rng

unfoldable pub verify_proof :
    PrimeField → (g : Groth16) → g.Proof → ScorePublicInputs → g.VerifyingKey → Option Bool
verify_proof f g proof public_inputs vk =
    let public_inputs_vec =
      f.constant public_inputs.threshold
      ∷ public_inputs.subject
      ∷ public_inputs.credit_oracle_id
      ∷ public_inputs.score_commitment
      ∷ f.constant public_inputs.snapshot_ledger
      ∷ public_inputs.domain_separator
      ∷ [] in
    g.verify vk public_inputs_vec proof

unfoldable pub generate_test_keys : (g : Groth16) → ℕ → Option (g.ProvingKey × g.VerifyingKey)
generate_test_keys g rng =
    g.circuit_specific_setup
      (record {
        witness = none;
        public_inputs = record {
          threshold = 0;
          subject = 0;
          credit_oracle_id = 0;
          score_commitment = 0;
          snapshot_ledger = 0;
          domain_separator = 0;
        };
      })
      rng
