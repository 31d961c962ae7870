-- ===== src/CreditOracle/Steps.antt =====
-- The entry points of contracts/credit-oracle/src/lib.rs that can write, as one relation between
-- the states before and after a successful invocation.
use stellar_did_credit.Base.{Bool, List, Option, String, ℕ, ℤ, ◌≡◌}
use stellar_did_credit.Host.{Address, Env, Hash, Symbol, ok, pure, ◌>>◌}
use stellar_did_credit.CreditOracle.Types.{IdentityClient, ScoringWeights, TxStats}
use stellar_did_credit.CreditOracle.State.{Method, Oracle}
use stellar_did_credit.CreditOracle.Admin.{
  accept_admin, initialize, pause, propose_new_admin, set_compute_cooldown_ledgers,
  set_identity_oracle, set_recency_decay, set_vc_type_weight, unpause, upgrade,
}
use stellar_did_credit.CreditOracle.Registration.{
  deregister_feeder, deregister_lender, register_feeder, register_lender,
}
use stellar_did_credit.CreditOracle.Inputs.{
  anchor_vc, migrate, record_repayment, set_vc_count, update_tx_stats,
}
use stellar_did_credit.CreditOracle.Compute.{compute_score}
use stellar_did_credit.CreditOracle.Weights.{apply_weights, propose_weights}
use stellar_did_credit.CreditOracle.Disputes.{flag_score_input, resolve_dispute}

pub data Request : Type 0 where
  initialize_with : Address → Request
  set_cooldown : Address → ℕ → Request
  pause_all unpause_all : Address → Request
  set_type_weight : Address → Symbol → ℕ → Request
  set_decay : Address → Bool → ℕ → ℕ → Request
  set_oracle : Address → Address → Request
  propose accept : Address → Request
  upgrade_to : Address → Hash → Request
  add_feeder drop_feeder add_lender drop_lender : Address → Address → Request
  update_stats : Address → Address → TxStats → Request
  repay : Address → Address → ℤ → Bool → Request
  migrate_all : List Address → Request
  cache_count : Address → Address → ℕ → Request
  anchor : Address → Address → Hash → Option Symbol → Request
  compute : Address → Request
  propose_config : ScoringWeights → Request
  apply_config : Request
  flag : Address → Symbol → String → Request
  resolve : Address → Symbol → Bool → Request

unfoldable pub run : IdentityClient → Request → Method (Unit {0})
run client (initialize_with a) = initialize a
run client (set_cooldown a n) = set_compute_cooldown_ledgers a n
run client (pause_all a) = pause a
run client (unpause_all a) = unpause a
run client (set_type_weight a t w) = set_vc_type_weight a t w
run client (set_decay a on rate floor) = set_recency_decay a on rate floor
run client (set_oracle a o) = set_identity_oracle client a o
run client (propose a) = propose_new_admin a
run client (accept a) = accept_admin a
run client (upgrade_to a w) = upgrade a w
run client (add_feeder a f) = register_feeder a f
run client (drop_feeder a f) = deregister_feeder a f
run client (add_lender a l) = register_lender a l
run client (drop_lender a l) = deregister_lender a l
run client (update_stats f u stats) = update_tx_stats f u stats
run client (repay l u amount on_time) = record_repayment l u amount on_time
run client (migrate_all us) = migrate us
run client (cache_count f u n) = set_vc_count f u n
run client (anchor f u h t) = anchor_vc f u h t
run client (compute u) = compute_score client u >> pure tt
run client (propose_config w) = propose_weights w
run client apply_config = apply_weights
run client (flag u k reason) = flag_score_input u k reason
run client (resolve u k accepted) = resolve_dispute u k accepted

-- One committed invocation. The environment and the answers of the identity oracle may differ
-- from call to call.
pub data Step (s t : Oracle) : Type 0 where
  invocation :
      (client : IdentityClient) (req : Request) (env : Env)
      → run client req env s ≡ ok tt t
      → Step s t

pub data Reach (s : Oracle) : Oracle → Type 0 where
  here : Reach s s
  next : {t u : Oracle} → Reach s t → Step t u → Reach s u
