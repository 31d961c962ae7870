-- ===== src/ScoreRangeVerifier/State.antt =====
-- Types, errors and storage of contracts/score-range-verifier/src/lib.rs.
use stellar_did_credit.Base.{Bool, List, Map, Option, [], none, ℕ}
use stellar_did_credit.Host.{Address, Call}

-- `Bytes`, `BytesN` and the points of the curve in their encoding.
abbrev pub Bytes : Type 0
Bytes = List ℕ

pub record ScoreRangePublicInputs : Type 0 where
  pub threshold : ℕ
  pub subject : Address
  pub credit_oracle_id : Address
  pub score_commitment : Bytes
  pub snapshot_ledger : ℕ
  pub domain_separator : Bytes

pub record VerificationKey : Type 0 where
  pub alpha : Bytes
  pub beta : Bytes
  pub gamma : Bytes
  pub delta : Bytes
  pub gamma_abc : List Bytes

-- What the contract uses of `env.crypto()` and of the SDK: `none` where the host rejects a point.
pub record Crypto : Type 0 where
  pub sha256 : Bytes → Bytes
  pub to_xdr : Address → Bytes
  pub neg : Bytes → Option Bytes
  pub g1_mul : Bytes → Bytes → Option Bytes
  pub g1_add : Bytes → Bytes → Option Bytes
  pub pairing_check : List Bytes → List Bytes → Option Bool

pub data VerifierError : Type 0 where
  already_initialized not_authorized not_initialized invalid_proof_size circuit_version_mismatch
        proof_already_consumed :
      VerifierError

pub data Event : Type 0 where
  init : Address → Bytes → ℕ → Event

-- A field for each constructor of `DataKey`; then the events, newest first.
pub record Verifier : Type 0 where
  pub admin : Option Address
  pub vk_hash : Option Bytes
  pub circuit_version : Option ℕ
  pub consumed_proof : Map Bytes Bool
  pub events : List Event

-- A contract that was just deployed.
abbrev pub deployed : Verifier
deployed = record {
  admin = none;
  vk_hash = none;
  circuit_version = none;
  consumed_proof = λ _. none;
  events = [];
}

abbrev pub Method : Type 0 → Type 0
Method A = Call VerifierError Verifier A

abbrev pub proof_size : ℕ
proof_size = 384

abbrev pub the_circuit_version : ℕ
the_circuit_version = 1
