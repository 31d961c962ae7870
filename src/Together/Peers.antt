-- ===== src/Together/Peers.antt =====
-- The credit oracle (contracts/credit-oracle/src/lib.rs) answers the calls of the governance contract
-- (contracts/governance/src/lib.rs).
use stellar_did_credit.Base.{
  ap, arith, if◌then◌else◌, inl, inr, nat_eq, ℕ, ℤ, ◌==◌, ◌||◌, ◌∷◌, ◌≡◌, ◌⊎◌,
}
use stellar_did_credit.Host.{
  Address, Ensures, Ensures-bind, Ensures-imp, Ensures-map, Env, Outcome, err, ok, pure, trap,
}
use stellar_did_credit.CreditOracle.Types.{CreditOracleError}
use stellar_did_credit.CreditOracle.State.{Oracle}
use stellar_did_credit.CreditOracle.Weights
use stellar_did_credit.CreditOracle.Admin
use stellar_did_credit.Governance.State.{
  Governance, OracleCall, Peer, Reply, aborted, accept_admin_at, apply_weights_at, failed,
  propose_weights_at, returned,
}
use stellar_did_credit.Governance.Steps.{
  Request, accept_oracle, apply_config, cancel, cast, cleanup, create, deregister, execute_one,
  initialize_with, register, run, set_percent, set_quorum_to, update_weight,
}
use stellar_did_credit.Governance.Effects.{create_proposal-Creates, vote-Casts}
use stellar_did_credit.Governance.Outcomes.{
  Cleans, Executes, cancel_proposal-Cancels, cleanup_proposal_votes-Cleans, execute-Executes,
}
use stellar_did_credit.Governance.Admin.{
  accept_oracle_admin, apply_weights, initialize, set_quorum, set_quorum_percent,
}
use stellar_did_credit.Governance.Voters.{
  cleanup_proposal_votes, deregister_voter, register_voter, update_voter_weight, vote,
}
use stellar_did_credit.Governance.Proposals.{cancel_proposal, create_proposal, execute}
use stellar_did_credit.CreditOracle.Types.{CreditOracleError}

-- The environment of a contract at an address that the current contract calls: the caller counts as
-- authorized.
abbrev pub call_env : Address → Env → Env
call_env at env = record env {
  authorized = λ a. a == env.current_contract || env.authorized a;
  current_contract = at;
}

-- How a call of the oracle at the address `at` ends. A call of another address finds no contract.
abbrev pub answer_of :
    Address → Env → Oracle → OracleCall → Outcome CreditOracleError Oracle (Unit {0})
answer_of at env x (propose_weights_at a w) =
    if a == at then Weights.propose_weights w (call_env at env) x else trap
answer_of at env x (apply_weights_at a) =
    if a == at then Weights.apply_weights (call_env at env) x else trap
answer_of at env x (accept_admin_at a b) =
    if a == at then Admin.accept_admin b (call_env at env) x else trap

abbrev pub reply_of : Outcome CreditOracleError Oracle (Unit {0}) → Reply
reply_of (ok a y) = returned
reply_of (err e) = failed e
reply_of trap = aborted

-- The oracle in a state, as the governance contract sees it.
abbrev pub peer_of : Address → Env → Oracle → Peer
peer_of at env x c = reply_of (answer_of at env x c)

-- The calls of a request of the governance contract: none, or one that the oracle answered.
pub data Calls (peer : Peer) (env : Env) (s t : Governance) : Type 0 where
  silent : t.calls ≡ s.calls → Calls peer env s t
  proposes : (id : ℕ) → Executes peer env id s t → Calls peer env s t
  applies :
      (o : Address)
      → t.calls ≡ apply_weights_at o ∷ s.calls
      → peer (apply_weights_at o) ≡ returned
      → Calls peer env s t
  accepts :
      (o : Address)
      → t.calls ≡ accept_admin_at o env.current_contract ∷ s.calls
      → peer (accept_admin_at o env.current_contract) ≡ returned
      → Calls peer env s t

module _ (peer : Peer) (env : Env) (s : Governance) where
  initialize-silent :
      (a o : Address) (q : ℤ) → Ensures (λ _ t. t.calls ≡ s.calls) (initialize a o q env s)
  unfolding initialize
  initialize-silent a o q = grind arith

  set_quorum-silent :
      (a : Address) (q : ℤ) → Ensures (λ _ t. t.calls ≡ s.calls) (set_quorum a q env s)
  unfolding set_quorum
  set_quorum-silent a q = grind arith

  set_quorum_percent-silent :
      (a : Address) (n : ℕ) → Ensures (λ _ t. t.calls ≡ s.calls) (set_quorum_percent a n env s)
  unfolding set_quorum_percent
  set_quorum_percent-silent a n = grind arith

  register_voter-silent :
      (a v : Address) (w : ℤ) → Ensures (λ _ t. t.calls ≡ s.calls) (register_voter a v w env s)
  unfolding register_voter
  register_voter-silent a v w = grind arith

  update_voter_weight-silent :
      (a v : Address) (w : ℤ) → Ensures (λ _ t. t.calls ≡ s.calls) (update_voter_weight a v w env s)
  unfolding update_voter_weight
  update_voter_weight-silent a v w = grind arith

  deregister_voter-silent :
      (a v : Address) → Ensures (λ _ t. t.calls ≡ s.calls) (deregister_voter a v env s)
  unfolding deregister_voter
  deregister_voter-silent a v = grind arith

  apply_weights-Applies :
      Ensures
        (λ _ t.
          (o : Address) × (t.calls ≡ apply_weights_at o ∷ s.calls)
          × (peer (apply_weights_at o) ≡ returned))
        (apply_weights peer env s)
  unfolding apply_weights
  apply_weights-Applies = grind arith

  accept_oracle_admin-Accepts :
      Ensures
        (λ _ t.
          (o : Address) × (t.calls ≡ accept_admin_at o env.current_contract ∷ s.calls)
          × (peer (accept_admin_at o env.current_contract) ≡ returned))
        (accept_oracle_admin peer env s)
  unfolding accept_oracle_admin
  accept_oracle_admin-Accepts = grind arith

pub run-Calls :
    (peer : Peer) (req : Request) (env : Env) (s : Governance)
    → Ensures (λ _. Calls peer env s) (run peer req env s)
unfolding run
run-Calls peer (initialize_with a o q) env s =
    Ensures-imp (λ t. silent) (initialize a o q env s) (initialize-silent peer env s a o q)
run-Calls peer (set_quorum_to a q) env s =
    Ensures-imp (λ t. silent) (set_quorum a q env s) (set_quorum-silent peer env s a q)
run-Calls peer (set_percent a n) env s =
    Ensures-imp (λ t. silent) (set_quorum_percent a n env s)
      (set_quorum_percent-silent peer env s a n)
run-Calls peer (create a w period delay) env s =
    Ensures-bind (λ _. Calls peer env s) (create_proposal a w period delay) (λ _. pure tt) env s
      (Ensures-map (λ id t c. silent (ap (λ (g : Governance). g.calls) c.7))
        (create_proposal a w period delay env s) (create_proposal-Creates a w period delay env s))
run-Calls peer (cast v id for w) env s =
    Ensures-imp (λ t c. silent (ap (λ (g : Governance). g.calls) c.16)) (vote v id for w env s)
      (vote-Casts v id w env s for)
run-Calls peer (execute_one id) env s =
    Ensures-imp (λ t. proposes id) (execute peer id env s) (execute-Executes peer id env s)
run-Calls peer (cleanup a id vs) env s =
    Ensures-imp (λ t. kept) (cleanup_proposal_votes a id vs env s)
      (cleanup_proposal_votes-Cleans a id vs env s)
  where
    kept : {t : Governance} → Cleans env id vs s t ⊎ (t ≡ s) → Calls peer env s t
    kept (inl c) = silent (ap (λ (g : Governance). g.calls) c.6)
    kept (inr e) = silent (ap (λ (g : Governance). g.calls) e)
run-Calls peer apply_config env s =
    Ensures-imp (λ t c. applies c.0 c.1 c.2) (apply_weights peer env s)
      (apply_weights-Applies peer env s)
run-Calls peer accept_oracle env s =
    Ensures-imp (λ t c. accepts c.0 c.1 c.2) (accept_oracle_admin peer env s)
      (accept_oracle_admin-Accepts peer env s)
run-Calls peer (register a v w) env s =
    Ensures-imp (λ t. silent) (register_voter a v w env s) (register_voter-silent peer env s a v w)
run-Calls peer (update_weight a v w) env s =
    Ensures-imp (λ t. silent) (update_voter_weight a v w env s)
      (update_voter_weight-silent peer env s a v w)
run-Calls peer (deregister a v) env s =
    Ensures-imp (λ t. silent) (deregister_voter a v env s) (deregister_voter-silent peer env s a v)
run-Calls peer (cancel a id) env s =
    Ensures-imp (λ t c. silent (ap (λ (g : Governance). g.calls) c.6)) (cancel_proposal a id env s)
      (cancel_proposal-Cancels a id env s)
