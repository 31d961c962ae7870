-- ===== src/Governance/Client.antt =====
-- The wrappers in contracts/credit-oracle-types/src/lib.rs through which the governance contract calls
-- the credit oracle. A call that returned is recorded; one that did not leaves nothing behind.
use stellar_did_credit.Base.{◌∷◌}
use stellar_did_credit.Host.{Address, modify, panic, pure, ◌>>◌}
use stellar_did_credit.CreditOracle.Types.{CreditOracleError, ScoringWeights, no_pending_weights}
use stellar_did_credit.Governance.State.{
  Method, OracleCall, Peer, Reply, aborted, accept_admin_at, apply_weights_at, failed,
  no_pending_weights, propose_weights_at, returned,
}

abbrev record_call : OracleCall → Method (Unit {0})
record_call c = modify (λ s. record s { calls = c ∷ s.calls })

-- `env.invoke_contract` with a result of type `()`
abbrev pub invoke : OracleCall → Reply → Method (Unit {0})
invoke c returned = record_call c
invoke c (failed e) = panic
invoke c aborted = panic

unfoldable pub propose_weights : Peer → Address → ScoringWeights → Method (Unit {0})
propose_weights peer contract_id weights =
    invoke (propose_weights_at contract_id weights) (peer (propose_weights_at contract_id weights))

unfoldable pub accept_admin : Peer → Address → Address → Method (Unit {0})
accept_admin peer contract_id new_admin =
    invoke (accept_admin_at contract_id new_admin) (peer (accept_admin_at contract_id new_admin))

-- `Result<(), CreditOracleError>`
pub data Applied : Type 0 where
  done : Applied
  refused : CreditOracleError → Applied

abbrev pub try_invoke : OracleCall → Reply → Method Applied
try_invoke c returned = record_call c >> pure done
try_invoke c (failed e) = pure (refused e)
try_invoke c aborted = pure (refused no_pending_weights)

unfoldable pub apply_weights : Peer → Address → Method Applied
apply_weights peer contract_id =
    try_invoke (apply_weights_at contract_id) (peer (apply_weights_at contract_id))
