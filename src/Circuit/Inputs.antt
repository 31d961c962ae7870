-- ===== src/Circuit/Inputs.antt =====
-- The inputs of the circuit of zk/circuit/src/score_circuit.rs.
use stellar_did_credit.Base.{Bool, List, Option, [], false, none, pos, some, ℕ, ℤ, ◌∷◌}
use stellar_did_credit.Circuit.Field.{PrimeField}
use stellar_did_credit.Circuit.Commitment.{Bytes}

-- `b"stellar-did-credit::score-gt-threshold::v1"`
abbrev pub circuit_domain : Bytes
circuit_domain =
    115 ∷ 116 ∷ 101 ∷ 108 ∷ 108 ∷ 97 ∷ 114 ∷ 45 ∷ 100 ∷ 105 ∷ 100 ∷ 45 ∷ 99 ∷ 114 ∷ 101 ∷ 100 ∷ 105
    ∷ 116 ∷ 58 ∷ 58 ∷ 115 ∷ 99 ∷ 111 ∷ 114 ∷ 101 ∷ 45 ∷ 103 ∷ 116 ∷ 45 ∷ 116 ∷ 104 ∷ 114 ∷ 101 ∷ 115
    ∷ 104 ∷ 111 ∷ 108 ∷ 100 ∷ 58 ∷ 58 ∷ 118 ∷ 49 ∷ []

pub record ScorePublicInputs : Type 0 where
  pub threshold : ℕ
  pub subject : ℕ
  pub credit_oracle_id : ℕ
  pub score_commitment : ℕ
  pub snapshot_ledger : ℕ
  pub domain_separator : ℕ

pub record ScoreWitness : Type 0 where
  pub score : ℕ
  pub vc_count : ℕ
  pub tx_volume_30d : ℤ
  pub avg_counterparties : ℕ
  pub repayment_rate : ℕ
  pub last_updated : ℕ
  pub computed_at_ledger : ℕ
  pub stale : Bool
  pub vc_points : ℕ
  pub on_time_count : ℕ
  pub total_count : ℕ
  pub total_repaid : ℤ
  pub vc_weight : ℕ
  pub tx_weight : ℕ
  pub repayment_weight : ℕ
  pub vc_score : ℕ
  pub volume_score : ℕ
  pub counterparty_bonus : ℕ
  pub tx_score : ℕ
  pub repayment_rate_score : ℕ
  pub repayment_volume_score : ℕ
  pub repay_score : ℕ
  pub composite : ℕ
  pub q_volume : ℕ
  pub q_cp : ℕ
  pub q_rv : ℕ
  pub total_count_is_zero : Bool
  pub total_count_inv : ℕ
  pub blinding : ℕ

-- `ScoreWitness::default()`
abbrev pub default_witness : ScoreWitness
default_witness = record {
  score = 300;
  vc_count = 0;
  tx_volume_30d = pos 0;
  avg_counterparties = 0;
  repayment_rate = 0;
  last_updated = 0;
  computed_at_ledger = 0;
  stale = false;
  vc_points = 0;
  on_time_count = 0;
  total_count = 0;
  total_repaid = pos 0;
  vc_weight = 60;
  tx_weight = 0;
  repayment_weight = 40;
  vc_score = 0;
  volume_score = 0;
  counterparty_bonus = 0;
  tx_score = 0;
  repayment_rate_score = 0;
  repayment_volume_score = 0;
  repay_score = 0;
  composite = 0;
  q_volume = 0;
  q_cp = 0;
  q_rv = 0;
  total_count_is_zero = false;
  total_count_inv = 0;
  blinding = 0;
}

pub record ScoreCircuit : Type 0 where
  pub witness : Option ScoreWitness
  pub public_inputs : ScorePublicInputs

-- What each variable is assigned without a witness: `unwrap_or(0)` and `unwrap_or(false)`.
abbrev pub no_witness : ScoreWitness
no_witness = record {
  score = 0;
  vc_count = 0;
  tx_volume_30d = pos 0;
  avg_counterparties = 0;
  repayment_rate = 0;
  last_updated = 0;
  computed_at_ledger = 0;
  stale = false;
  vc_points = 0;
  on_time_count = 0;
  total_count = 0;
  total_repaid = pos 0;
  vc_weight = 0;
  tx_weight = 0;
  repayment_weight = 0;
  vc_score = 0;
  volume_score = 0;
  counterparty_bonus = 0;
  tx_score = 0;
  repayment_rate_score = 0;
  repayment_volume_score = 0;
  repay_score = 0;
  composite = 0;
  q_volume = 0;
  q_cp = 0;
  q_rv = 0;
  total_count_is_zero = false;
  total_count_inv = 0;
  blinding = 0;
}

abbrev pub assigned : Option ScoreWitness → ScoreWitness
assigned none = no_witness
assigned (some w) = w

-- The public input variables in the order in which the circuit allocates them.
unfoldable pub new_inputs : PrimeField → ScorePublicInputs → List ℕ
new_inputs f inputs =
    f.constant inputs.threshold
    ∷ inputs.subject
    ∷ inputs.credit_oracle_id
    ∷ inputs.score_commitment
    ∷ f.constant inputs.snapshot_ledger
    ∷ inputs.domain_separator
    ∷ []
