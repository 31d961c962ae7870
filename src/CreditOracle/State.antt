-- ===== src/CreditOracle/State.antt =====
-- Storage, events and the private helpers of contracts/credit-oracle/src/lib.rs.
use stellar_did_credit.Base.{
  Bool, List, Map, Option, [], checked_add, false, nat_eq, none, not, pair_eq, some, string_eq,
  u64_max, unwrap_or, ℕ, ◌==◌, ◌∷◌,
}
use stellar_did_credit.Host.{
  Address, Call, Hash, Symbol, expect, fail_if, gets, modify, require_auth, ◌>>=◌, ◌>>◌,
}
use stellar_did_credit.CreditOracle.Types.{
  CreditOracleError, DisputeRecord, ProtocolStats, RecencyDecayConfig, RepaymentRecord,
  RepaymentRecordV1, ScoreRecord, ScoringWeights, TxStats, VcEntry, contract_paused, not_authorized,
}

pub data Event : Type 0 where
  initialized : Address → Event
  cooldown_updated : ℕ → Event
  fdr_reg fdr_de_reg lnd_reg lnd_de_reg : Address → Event
  paused unpaused : Event
  vc_cnt_dep : Address → ℕ → Event
  vc_wt_set : Symbol → ℕ → Event
  rec_decay : Bool → ℕ → ℕ → Event
  vc_anch_cr : Address → Option Symbol → Event
  score : Address → ℕ → Event
  wt_prop : ScoringWeights → ℕ → Event
  wt_apply : ScoringWeights → Event
  identity_oracle_updated : Address → Event
  adm_prop adm_accept : Address → Event
  dspt_fild dspt_rslv dspt_rjct : Address → Symbol → Event

-- What `RepaymentRecord(subject)` holds: the layout of the storage version that wrote it.
pub data StoredRepayment : Type 0 where
  layout_v1 : RepaymentRecordV1 → StoredRepayment
  layout_v2 : RepaymentRecord → StoredRepayment

-- A field for each constructor of `DataKey`; then what leaves the contract, newest first.
pub record Oracle : Type 0 where
  pub admin : Option Address
  pub pending_admin : Option Address
  pub storage_version : Option ℕ
  pub config : Option ScoringWeights
  pub vc_weight : Map Symbol ℕ
  pub trusted_feeder : Map Address Bool
  pub trusted_lender : Map Address Bool
  pub tx_stats : Map Address TxStats
  pub repayment_record : Map Address StoredRepayment
  pub score : Map Address ScoreRecord
  pub vc_count : Map Address ℕ
  pub vc_list : Map Address (List VcEntry)
  pub pending_weights : Option ScoringWeights
  pub pending_weights_effective_ledger : Option ℕ
  pub identity_oracle_id : Option Address
  pub compute_cooldown_ledgers : Option ℕ
  pub protocol_stats : Option ProtocolStats
  pub feeders_index : Option (List Address)
  pub lenders_index : Option (List Address)
  pub dispute : Map (Address × Symbol) DisputeRecord
  pub dispute_index : Map Address (List Symbol)
  pub paused : Option Bool
  pub recency_decay_enabled : Option Bool
  pub decay_bps_per_day : Option ℕ
  pub min_recency_bps : Option ℕ
  pub governance_id : Option Address
  pub wasm : Option Hash
  pub events : List Event

-- A contract that was just deployed.
abbrev pub deployed : Oracle
deployed = record {
  admin = none;
  pending_admin = none;
  storage_version = none;
  config = none;
  vc_weight = λ _. none;
  trusted_feeder = λ _. none;
  trusted_lender = λ _. none;
  tx_stats = λ _. none;
  repayment_record = λ _. none;
  score = λ _. none;
  vc_count = λ _. none;
  vc_list = λ _. none;
  pending_weights = none;
  pending_weights_effective_ledger = none;
  identity_oracle_id = none;
  compute_cooldown_ledgers = none;
  protocol_stats = none;
  feeders_index = none;
  lenders_index = none;
  dispute = λ _. none;
  dispute_index = λ _. none;
  paused = none;
  recency_decay_enabled = none;
  decay_bps_per_day = none;
  min_recency_bps = none;
  governance_id = none;
  wasm = none;
  events = [];
}

abbrev pub Method : Type 0 → Type 0
Method A = Call CreditOracleError Oracle A

abbrev pub emit : Event → Method (Unit {0})
emit e = modify (λ s. record s { events = e ∷ s.events })

unfoldable pub load_protocol_stats : Oracle → ProtocolStats
load_protocol_stats s =
    unwrap_or s.protocol_stats (record { total_subjects_scored = 0; total_repayments_recorded = 0 })

unfoldable pub load_recency_config : Oracle → RecencyDecayConfig
load_recency_config s = record {
  enabled = unwrap_or s.recency_decay_enabled false;
  decay_bps_per_day = unwrap_or s.decay_bps_per_day 5;
  min_recency_bps = unwrap_or s.min_recency_bps 5000;
}

unfoldable pub ensure_not_paused : Method (Unit {0})
ensure_not_paused = do flag ← gets (λ s. s.paused); fail_if (unwrap_or flag false) contract_paused

unfoldable pub increment_subjects_scored : Method (Unit {0})
unfolding load_protocol_stats
increment_subjects_scored = do
  stats ← gets load_protocol_stats
  n ← expect (checked_add u64_max stats.total_subjects_scored 1)
  modify (λ s. record s { protocol_stats = some (record stats { total_subjects_scored = n }) })

unfoldable pub increment_repayments_recorded : Method (Unit {0})
unfolding load_protocol_stats
increment_repayments_recorded = do
  stats ← gets load_protocol_stats
  n ← expect (checked_add u64_max stats.total_repayments_recorded 1)
  modify (λ s. record s { protocol_stats = some (record stats { total_repayments_recorded = n }) })

-- The guard of the entry points that take an `admin` argument: the stored administrator is
-- expected, compared, and asked for authorization.
unfoldable pub expect_admin : Address → Method (Unit {0})
expect_admin admin = do
  stored ← gets (λ s. s.admin)
  stored_admin ← expect stored
  fail_if (not (admin == stored_admin)) not_authorized
  require_auth admin
