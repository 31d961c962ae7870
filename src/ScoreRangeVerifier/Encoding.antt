-- ===== src/ScoreRangeVerifier/Encoding.antt =====
-- How contracts/score-range-verifier/src/lib.rs turns the public inputs into field elements, and a
-- consumption into the bytes that are hashed.
use stellar_did_credit.Base.{List, [], suc, zero, ℕ, ◌%◌, ◌++◌, ◌/◌, ◌∷◌}
use stellar_did_credit.Host.{Address}
use stellar_did_credit.ScoreRangeVerifier.State.{Bytes, Crypto, ScoreRangePublicInputs}

abbrev pub zeros : ℕ → Bytes
zeros zero = []
zeros (suc n) = 0 ∷ zeros n

-- Little-endian, in 32 bytes.
unfoldable pub u32_to_field : ℕ → Bytes
u32_to_field value =
    value % 256 ∷ (value / 256) % 256 ∷ (value / 65536) % 256 ∷ (value / 16777216) % 256 ∷ zeros 28

unfoldable pub address_to_field : Crypto → Address → Bytes
address_to_field crypto addr = crypto.sha256 (crypto.to_xdr addr)

unfoldable pub public_inputs_to_fields : Crypto → ScoreRangePublicInputs → List Bytes
unfolding u32_to_field address_to_field
public_inputs_to_fields crypto inputs =
    u32_to_field inputs.threshold
    ∷ address_to_field crypto inputs.subject
    ∷ address_to_field crypto inputs.credit_oracle_id
    ∷ inputs.score_commitment
    ∷ u32_to_field inputs.snapshot_ledger
    ∷ inputs.domain_separator
    ∷ []

-- `u32::to_be_bytes`
abbrev pub to_be_bytes : ℕ → Bytes
to_be_bytes n = (n / 16777216) % 256 ∷ (n / 65536) % 256 ∷ (n / 256) % 256 ∷ n % 256 ∷ []

-- The bytes whose hash marks a proof as consumed.
unfoldable pub preimage : Crypto → Bytes → ScoreRangePublicInputs → Bytes → Bytes
preimage crypto proof inputs nonce =
    proof
    ++ (to_be_bytes inputs.threshold
        ++ (crypto.to_xdr inputs.subject
            ++ (crypto.to_xdr inputs.credit_oracle_id
                ++ (inputs.score_commitment
                    ++ (to_be_bytes inputs.snapshot_ledger
                        ++ (inputs.domain_separator ++ nonce))))))
