-- ===== src/CreditOracle/Types.antt =====
-- The types of contracts/credit-oracle-types/src/lib.rs and the records of
-- contracts/credit-oracle/src/lib.rs.
use stellar_did_credit.Credential.{IdentityVcRecord}
use stellar_did_credit.Base.{
  Bool, List, Option, String, checked_add, false, if◌then◌else◌, leb, nat_eq, none, pair_eq, some,
  string_eq, u32_max, ℕ, ℤ, ◌&&◌, ◌==◌,
}
use stellar_did_credit.Host.{Address, Hash, Symbol}

pub data CreditOracleError : Type 0 where
  already_initialized not_authorized feeder_not_registered lender_not_registered invalid_weights
        no_pending_admin compute_cooldown_active dispute_already_pending dispute_not_found
        invalid_input_key invalid_identity_oracle contract_paused invalid_recency_config
        timelock_not_expired no_pending_weights not_initialized invalid_amount
        invalid_compute_cooldown :
      CreditOracleError

abbrev pub min_component_weight : ℕ
min_component_weight = 10

pub record ScoringWeights : Type 0 where
  pub vc_weight : ℕ
  pub tx_weight : ℕ
  pub repayment_weight : ℕ

-- `none` stands for the overflow of the checked `u32` sum.
unfoldable pub is_valid : ScoringWeights → Option Bool
is_valid w =
    if leb min_component_weight w.vc_weight
      && leb min_component_weight w.tx_weight
      && leb min_component_weight w.repayment_weight
    then (elim (checked_add u32_max w.vc_weight w.tx_weight) [
      | none ↦ none
      | some a ↦ elim (checked_add u32_max a w.repayment_weight) [
        | none ↦ none
        | some total ↦ some (total == 100)
      ]
    ])
    else some false

pub record PendingWeightsRecord : Type 0 where
  pub weights : ScoringWeights
  pub effective_ledger : ℕ

pub record ProtocolStats : Type 0 where
  pub total_subjects_scored : ℕ
  pub total_repayments_recorded : ℕ

pub record RecencyDecayConfig : Type 0 where
  pub enabled : Bool
  pub decay_bps_per_day : ℕ
  pub min_recency_bps : ℕ

pub record ScoreRecord : Type 0 where
  pub score : ℕ
  pub last_updated : ℕ
  pub vc_count : ℕ
  pub repayment_rate : ℕ
  pub tx_volume_30d : ℤ
  pub previous_score : Option ℕ
  pub computed_at_ledger : ℕ
  pub stale : Bool

pub record TxStats : Type 0 where
  pub volume_30d : ℤ
  pub tx_count_30d : ℕ
  pub avg_counterparties : ℕ

pub record RepaymentRecord : Type 0 where
  pub on_time_count : ℕ
  pub total_count : ℕ
  pub total_repaid : ℤ

pub record RepaymentRecordV1 : Type 0 where
  pub on_time_count : ℕ
  pub total_count : ℕ

pub record VcEntry : Type 0 where
  pub vc_id : Hash
  pub vc_type : Option Symbol

pub data DisputeStatus : Type 0 where
  pending resolved rejected : DisputeStatus

pub record DisputeRecord : Type 0 where
  pub subject : Address
  pub input_key : Symbol
  pub reason : String
  pub filed_at_ledger : ℕ
  pub status : DisputeStatus

-- The entry points of the identity oracle that this contract invokes: first the address of the
-- oracle, then the arguments. `none` stands for an invocation that traps.
pub record IdentityClient : Type 0 where
  pub get_active_vc_count : Address → Address → Option ℕ
  pub is_deactivated : Address → Address → Option Bool
  pub get_vc_details : Address → Address → Option (List IdentityVcRecord)
  pub verify_vc : Address → Address → Hash → Option Bool
  pub get_vc_credential_type : Address → Address → Hash → Option Symbol
  pub get_last_state_change_ledger : Address → Address → Option (Option ℕ)
