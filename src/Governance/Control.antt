-- ===== src/Governance/Control.antt =====
-- Who may change the settings and the register of the governance contract.
use stellar_did_credit.Base.{
  Map, Option, ap, arith, false, inl, inr, leb_ℤ, none, pos, some, true, ℕ, ℤ, ◌≡◌, ◌⊎◌,
}
use stellar_did_credit.Host.{Address, Ensures, Ensures-bind, Ensures-imp, Ensures-map, Env, pure}
use stellar_did_credit.CreditOracle.Types.{}
use stellar_did_credit.Governance.State.{Governance, Peer}
use stellar_did_credit.Governance.Effects.{create_proposal-Creates, roll, vote-Casts}
use stellar_did_credit.Governance.Outcomes.{
  Cleans, cancel_proposal-Cancels, cleanup_proposal_votes-Cleans, execute-Executes,
}
use stellar_did_credit.Governance.Steps.{
  Request, accept_oracle, apply_config, cancel, cast, cleanup, create, deregister, execute_one,
  initialize_with, register, run, set_percent, set_quorum_to, update_weight,
}
use stellar_did_credit.Governance.Admin.{
  accept_oracle_admin, apply_weights, initialize, set_quorum, set_quorum_percent,
}
use stellar_did_credit.Governance.Voters.{
  cleanup_proposal_votes, deregister_voter, register_voter, update_voter_weight, vote,
}
use stellar_did_credit.Governance.Proposals.{cancel_proposal, create_proposal, execute}

-- What only an administrator writes.
abbrev pub settings :
    Governance → Option Address × Option Address × Option ℤ × Option ℕ × Map Address ℤ × Option ℤ
settings s = (
  s.admin, s.credit_oracle, s.quorum_required, s.quorum_percent, s.voter_weight,
  s.total_registered_weight,
)

-- How the settings may differ after an invocation.
abbrev pub IsGoverned : Env → Governance → Governance → Type 0
IsGoverned env s t =
    (settings t ≡ settings s)
    ⊎ ((s.admin ≡ none)
        × (a : Address) × (t.admin ≡ some a)
        × (env.authorized a ≡ true)
        × (roll t ≡ roll s)
        × (q : ℤ) × (t.quorum_required ≡ some q)
        × (leb_ℤ q (pos 0) ≡ false))
    ⊎ ((a : Address) × (s.admin ≡ some a)
        × (env.authorized a ≡ true)
        × (t.admin ≡ s.admin)
        × (t.credit_oracle ≡ s.credit_oracle))

-- A successful request leaves the administrator, the oracle, the quorum settings and the register
-- of voters alone; or sets the first administrator, who authorized it, with a positive quorum and
-- the register unchanged; or was authorized by the administrator, who stays with the same oracle.
pub run-IsGoverned :
    (peer : Peer) (req : Request) (env : Env) (s : Governance)
    → Ensures (λ _. IsGoverned env s) (run peer req env s)
unfolding run
run-IsGoverned peer (initialize_with a o q) env s = unfold initialize in grind arith
run-IsGoverned peer (set_quorum_to a q) env s = unfold set_quorum in grind arith
run-IsGoverned peer (set_percent a n) env s = unfold set_quorum_percent in grind arith
run-IsGoverned peer apply_config env s = unfold apply_weights in grind arith
run-IsGoverned peer accept_oracle env s = unfold accept_oracle_admin in grind arith
run-IsGoverned peer (register a v w) env s = unfold register_voter in grind arith
run-IsGoverned peer (update_weight a v w) env s = unfold update_voter_weight in grind arith
run-IsGoverned peer (deregister a v) env s = unfold deregister_voter in grind arith
run-IsGoverned peer (create a w period delay) env s =
    Ensures-bind (λ _. IsGoverned env s) (create_proposal a w period delay) (λ _. pure tt) env s
      (Ensures-map (λ id t c. inl (ap settings c.7)) (create_proposal a w period delay env s)
        (create_proposal-Creates a w period delay env s))
run-IsGoverned peer (cast v id for w) env s =
    Ensures-imp (λ t c. inl (ap settings c.16)) (vote v id for w env s)
      (vote-Casts v id w env s for)
run-IsGoverned peer (execute_one id) env s =
    Ensures-imp (λ t c. inl (ap settings c.13)) (execute peer id env s)
      (execute-Executes peer id env s)
run-IsGoverned peer (cancel a id) env s =
    Ensures-imp (λ t c. inl (ap settings c.6)) (cancel_proposal a id env s)
      (cancel_proposal-Cancels a id env s)
run-IsGoverned peer (cleanup a id vs) env s =
    Ensures-imp (λ t. kept) (cleanup_proposal_votes a id vs env s)
      (cleanup_proposal_votes-Cleans a id vs env s)
  where
    kept : {t : Governance} → Cleans env id vs s t ⊎ (t ≡ s) → IsGoverned env s t
    kept (inl c) = inl (ap settings c.6)
    kept (inr e) = inl (ap settings e)
