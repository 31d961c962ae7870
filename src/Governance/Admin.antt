-- ===== src/Governance/Admin.antt =====
-- Initialization, the quorum settings, and the calls of the credit oracle that carry no proposal, in
-- contracts/governance/src/lib.rs.
use stellar_did_credit.Base.{
  Option, is_some, leb_ℤ, ltb, nat_eq, none, not, pos, some, unwrap_or, ℕ, ℤ, ◌==◌, ◌||◌,
}
use stellar_did_credit.Host.{
  Address, asks, fail, fail_if, gets, modify, ok_or, require_auth, ◌>>=◌, ◌>>◌,
}
use stellar_did_credit.CreditOracle.Types.{CreditOracleError}
use stellar_did_credit.Governance.State.{
  Event, Governance, Method, Peer, already_initialized, contract_paused, emit, first_proposal_id,
  invalid_quorum, no_pending_weights, not_authorized, timelock_not_expired,
}
use stellar_did_credit.Governance.Client
use stellar_did_credit.Governance.Client.{Applied, done, refused}

unfoldable pub initialize : Address → Address → ℤ → Method (Unit {0})
initialize admin credit_oracle quorum_required = do
  stored ← gets (λ s. s.admin)
  fail_if (is_some stored) already_initialized
  fail_if (leb_ℤ quorum_required (pos 0)) invalid_quorum
  require_auth admin
  modify (λ s. record s { admin = some admin })
  modify (λ s. record s { credit_oracle = some credit_oracle })
  modify (λ s. record s { next_proposal_id = some first_proposal_id })
  modify (λ s. record s { quorum_required = some quorum_required })
  emit (Event.initialized admin credit_oracle)

-- The check of an `admin` argument against the stored administrator.
unfoldable pub check_admin : Address → Method (Unit {0})
check_admin admin = do
  stored ← gets (λ s. s.admin)
  stored_admin ← ok_or stored not_authorized
  fail_if (not (admin == stored_admin)) not_authorized

unfoldable pub set_quorum : Address → ℤ → Method (Unit {0})
unfolding check_admin
set_quorum admin quorum_required = do
  fail_if (leb_ℤ quorum_required (pos 0)) invalid_quorum
  check_admin admin
  require_auth admin
  total ← gets (λ s. s.total_registered_weight)
  fail_if (not (leb_ℤ quorum_required (unwrap_or total (pos 0)))) invalid_quorum
  modify (λ s. record s { quorum_required = some quorum_required })
  modify (λ s. record s { quorum_percent = none })

unfoldable pub set_quorum_percent : Address → ℕ → Method (Unit {0})
unfolding check_admin
set_quorum_percent admin percent = do
  fail_if (percent == 0 || ltb 100 percent) invalid_quorum
  check_admin admin
  require_auth admin
  modify (λ s. record s { quorum_percent = some percent })

unfoldable pub get_quorum_percent : Governance → Option ℕ
get_quorum_percent s = s.quorum_percent

unfoldable pub get_quorum : Governance → ℤ
get_quorum s = unwrap_or s.quorum_required (pos 0)

unfoldable pub get_total_registered_weight : Governance → ℤ
get_total_registered_weight s = unwrap_or s.total_registered_weight (pos 0)

-- `match CreditOracleClient::apply_weights(..) { .. }`
abbrev settle : Applied → Method (Unit {0})
settle done = do ledger ← asks (λ env. env.sequence); emit (Event.wt_applied ledger)
settle (refused CreditOracleError.timelock_not_expired) = fail timelock_not_expired
settle (refused CreditOracleError.no_pending_weights) = fail no_pending_weights
settle (refused CreditOracleError.contract_paused) = fail contract_paused
settle (refused e) = fail not_authorized

unfoldable pub apply_weights : Peer → Method (Unit {0})
unfolding Client.apply_weights
apply_weights peer = do
  stored ← gets (λ s. s.credit_oracle)
  credit_oracle_addr ← ok_or stored not_authorized
  applied ← Client.apply_weights peer credit_oracle_addr
  settle applied

unfoldable pub accept_oracle_admin : Peer → Method (Unit {0})
unfolding Client.accept_admin
accept_oracle_admin peer = do
  stored ← gets (λ s. s.admin)
  admin ← ok_or stored not_authorized
  require_auth admin
  oracle ← gets (λ s. s.credit_oracle)
  credit_oracle_addr ← ok_or oracle not_authorized
  contract ← asks (λ env. env.current_contract)
  Client.accept_admin peer credit_oracle_addr contract
