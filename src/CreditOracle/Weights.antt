-- ===== src/CreditOracle/Weights.antt =====
-- The time-locked change of the scoring weights in contracts/credit-oracle/src/lib.rs.
use stellar_did_credit.Base.{Option, checked_add, ltb, none, not, some, u32_max, ℕ}
use stellar_did_credit.Host.{
  asks, expect, fail_if, gets, modify, ok_or, pure, require_auth, ◌>>=◌, ◌>>◌,
}
use stellar_did_credit.CreditOracle.Types.{
  PendingWeightsRecord, ScoringWeights, invalid_weights, is_valid, no_pending_weights,
  not_initialized, timelock_not_expired,
}
use stellar_did_credit.CreditOracle.State.{Event, Method, emit, ensure_not_paused}

abbrev pub timelock_ledgers : ℕ
timelock_ledgers = 17280

unfoldable pub propose_weights : ScoringWeights → Method (Unit {0})
unfolding is_valid
propose_weights weights = do
  valid ← expect (is_valid weights)
  fail_if (not valid) invalid_weights
  stored ← gets (λ s. s.admin)
  stored_admin ← expect stored
  require_auth stored_admin
  ledger ← asks (λ env. env.sequence)
  effective_ledger ← expect (checked_add u32_max ledger timelock_ledgers)
  modify (λ s. record s { pending_weights = some weights })
  modify (λ s. record s { pending_weights_effective_ledger = some effective_ledger })
  emit (Event.wt_prop weights effective_ledger)

unfoldable pub apply_weights : Method (Unit {0})
unfolding ensure_not_paused
apply_weights = do
  ensure_not_paused
  effective ← gets (λ s. s.pending_weights_effective_ledger)
  effective_ledger ← ok_or effective no_pending_weights
  ledger ← asks (λ env. env.sequence)
  fail_if (ltb ledger effective_ledger) timelock_not_expired
  stored ← gets (λ s. s.pending_weights)
  weights ← ok_or stored no_pending_weights
  modify (λ s. record s { config = some weights })
  modify (λ s. record s { pending_weights = none })
  modify (λ s. record s { pending_weights_effective_ledger = none })
  emit (Event.wt_apply weights)

unfoldable pub get_scoring_weights : Method ScoringWeights
get_scoring_weights = do config ← gets (λ s. s.config); ok_or config not_initialized

abbrev pending_record : Option ScoringWeights → Method (Option PendingWeightsRecord)
pending_record none = pure none
pending_record (some w) = do
  effective ← gets (λ s. s.pending_weights_effective_ledger)
  effective_ledger ← expect effective
  pure (some (record { weights = w; effective_ledger = effective_ledger }))

unfoldable pub get_pending_weights : Method (Option PendingWeightsRecord)
get_pending_weights = do weights ← gets (λ s. s.pending_weights); pending_record weights
