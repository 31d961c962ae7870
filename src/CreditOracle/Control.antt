-- ===== src/CreditOracle/Control.antt =====
-- Who controls the credit oracle: the authority behind each entry point of
-- contracts/credit-oracle/src/lib.rs that writes, and the pause switch.
use stellar_did_credit.Base.{arith, false, none, some, true, ℕ, ◌≡◌, ◌≤◌}
use stellar_did_credit.Host.{Address, Ensures, Env}
use stellar_did_credit.CreditOracle.Types.{IdentityClient}
use stellar_did_credit.CreditOracle.State.{Oracle}
use stellar_did_credit.CreditOracle.Admin.{
  accept_admin, initialize, is_paused, pause, propose_new_admin, set_compute_cooldown_ledgers,
  set_identity_oracle, set_recency_decay, set_vc_type_weight, unpause, upgrade,
}
use stellar_did_credit.CreditOracle.Registration.{
  deregister_feeder, deregister_lender, register_feeder, register_lender,
}
use stellar_did_credit.CreditOracle.Inputs.{
  anchor_vc, migrate, record_repayment, set_vc_count, update_tx_stats,
}
use stellar_did_credit.CreditOracle.Compute.{compute_score}
use stellar_did_credit.CreditOracle.Weights.{apply_weights, propose_weights}
use stellar_did_credit.CreditOracle.Disputes.{flag_score_input, resolve_dispute}
use stellar_did_credit.CreditOracle.Steps.{
  Request, accept, add_feeder, add_lender, anchor, apply_config, cache_count, compute, drop_feeder,
  drop_lender, flag, initialize_with, migrate_all, pause_all, propose, propose_config, repay,
  resolve, run, set_cooldown, set_decay, set_oracle, set_type_weight, unpause_all, update_stats,
  upgrade_to,
}
use stellar_did_credit.CreditOracle.Frame.{migrate_each_frame}

-- The address is the administrator and authorized the invocation.
abbrev pub IsAdmin : Env → Oracle → Address → Type 0
IsAdmin env s a = (s.admin ≡ some a) × (env.authorized a ≡ true)

abbrev pub IsFeeder : Env → Oracle → Address → Type 0
IsFeeder env s f = (s.trusted_feeder f ≡ some true) × (env.authorized f ≡ true)

abbrev pub IsLender : Env → Oracle → Address → Type 0
IsLender env s l = (s.trusted_lender l ≡ some true) × (env.authorized l ≡ true)

-- Who may send a request, and in which state.
abbrev pub IsEntitled : Env → Oracle → Request → Type 0
IsEntitled env s (initialize_with a) = (s.admin ≡ none) × (env.authorized a ≡ true)
IsEntitled env s (set_cooldown a n) = IsAdmin env s a
IsEntitled env s (pause_all a) = IsAdmin env s a
IsEntitled env s (unpause_all a) = IsAdmin env s a
IsEntitled env s (set_type_weight a t w) = IsAdmin env s a
IsEntitled env s (set_decay a on rate floor) = IsAdmin env s a
IsEntitled env s (set_oracle a o) = IsAdmin env s a
IsEntitled env s (propose a) = (b : Address) × IsAdmin env s b
IsEntitled env s (accept a) = (s.pending_admin ≡ some a) × (env.authorized a ≡ true)
IsEntitled env s (upgrade_to a w) = IsAdmin env s a
IsEntitled env s (add_feeder a f) = IsAdmin env s a
IsEntitled env s (drop_feeder a f) = IsAdmin env s a
IsEntitled env s (add_lender a l) = IsAdmin env s a
IsEntitled env s (drop_lender a l) = IsAdmin env s a
IsEntitled env s (update_stats f u stats) = IsFeeder env s f × (is_paused s ≡ false)
IsEntitled env s (repay l u amount on_time) = IsLender env s l × (is_paused s ≡ false)
IsEntitled env s (migrate_all us) = (b : Address) × IsAdmin env s b
IsEntitled env s (cache_count f u n) = IsFeeder env s f × (is_paused s ≡ false)
IsEntitled env s (anchor f u h t) = IsFeeder env s f × (is_paused s ≡ false)
IsEntitled env s (compute u) = is_paused s ≡ false
IsEntitled env s (propose_config w) = (b : Address) × IsAdmin env s b
IsEntitled env s apply_config =
    (lock : ℕ) × (s.pending_weights_effective_ledger ≡ some lock)
    × (lock ≤ env.sequence)
    × (is_paused s ≡ false)
IsEntitled env s (flag u k reason) = env.authorized u ≡ true
IsEntitled env s (resolve u k accepted) = (b : Address) × IsAdmin env s b

-- A request succeeds only for the caller that it is meant for: the registered feeder or lender
-- who authorized the record, on a contract that is not paused; the subject who files a dispute;
-- the proposed administrator who accepts; the first administrator of a contract without one; and
-- the administrator for everything else, except that anybody may compute a score while the
-- contract is not paused and apply weights once their timelock is over.
pub run-IsEntitled :
    (client : IdentityClient) (req : Request) (env : Env) (s : Oracle)
    → Ensures (λ _ _. IsEntitled env s req) (run client req env s)
unfolding run is_paused
run-IsEntitled client (initialize_with a) env s = unfold initialize in ground arith
run-IsEntitled client (propose_config w) env s = unfold propose_weights in ground arith
run-IsEntitled client apply_config env s = unfold apply_weights in ground arith
run-IsEntitled client (set_cooldown a n) env s = unfold set_compute_cooldown_ledgers in ground arith
run-IsEntitled client (pause_all a) env s = unfold pause in ground arith
run-IsEntitled client (unpause_all a) env s = unfold unpause in ground arith
run-IsEntitled client (set_type_weight a t w) env s = unfold set_vc_type_weight in ground arith
run-IsEntitled client (set_decay a on rate floor) env s = unfold set_recency_decay in ground arith
run-IsEntitled client (set_oracle a o) env s = unfold set_identity_oracle in ground arith
run-IsEntitled client (propose a) env s = unfold propose_new_admin in ground arith
run-IsEntitled client (accept a) env s = unfold accept_admin in ground arith
run-IsEntitled client (upgrade_to a w) env s = unfold upgrade in ground arith
run-IsEntitled client (add_feeder a f) env s = unfold register_feeder in ground arith
run-IsEntitled client (drop_feeder a f) env s = unfold deregister_feeder in ground arith
run-IsEntitled client (add_lender a l) env s = unfold register_lender in ground arith
run-IsEntitled client (drop_lender a l) env s = unfold deregister_lender in ground arith
run-IsEntitled client (update_stats f u stats) env s = unfold update_tx_stats in ground arith
run-IsEntitled client (repay l u amount on_time) env s = unfold record_repayment in ground arith
run-IsEntitled client (migrate_all us) env s =
    unfold migrate in ground (arith, migrate_each_frame us env s)
run-IsEntitled client (cache_count f u n) env s = unfold set_vc_count in ground arith
run-IsEntitled client (anchor f u h t) env s = unfold anchor_vc in ground arith
run-IsEntitled client (compute u) env s = unfold compute_score in ground arith
run-IsEntitled client (flag u k reason) env s = unfold flag_score_input in ground arith
run-IsEntitled client (resolve u k accepted) env s = unfold resolve_dispute in ground arith
