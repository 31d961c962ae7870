-- ===== src/Governance/Steps.antt =====
-- The entry points of contracts/governance/src/lib.rs that can write, as one relation between the
-- states before and after a successful invocation.
use stellar_did_credit.Base.{Bool, List, ℕ, ℤ, ◌≡◌}
use stellar_did_credit.Host.{Address, Env, ok, pure, ◌>>◌}
use stellar_did_credit.CreditOracle.Types.{ScoringWeights}
use stellar_did_credit.Governance.State.{Governance, Method, Peer}
use stellar_did_credit.Governance.Admin.{
  accept_oracle_admin, apply_weights, initialize, set_quorum, set_quorum_percent,
}
use stellar_did_credit.Governance.Voters.{
  cleanup_proposal_votes, deregister_voter, register_voter, update_voter_weight, vote,
}
use stellar_did_credit.Governance.Proposals.{cancel_proposal, create_proposal, execute}

pub data Request : Type 0 where
  initialize_with : Address → Address → ℤ → Request
  set_quorum_to : Address → ℤ → Request
  set_percent : Address → ℕ → Request
  create : Address → ScoringWeights → ℕ → ℕ → Request
  cast : Address → ℕ → Bool → ℤ → Request
  execute_one : ℕ → Request
  cleanup : Address → ℕ → List Address → Request
  apply_config accept_oracle : Request
  register update_weight : Address → Address → ℤ → Request
  deregister : Address → Address → Request
  cancel : Address → ℕ → Request

unfoldable pub run : Peer → Request → Method (Unit {0})
run peer (initialize_with a o q) = initialize a o q
run peer (set_quorum_to a q) = set_quorum a q
run peer (set_percent a n) = set_quorum_percent a n
run peer (create a w period delay) = create_proposal a w period delay >> pure tt
run peer (cast v id for weight) = vote v id for weight
run peer (execute_one id) = execute peer id
run peer (cleanup a id voters) = cleanup_proposal_votes a id voters
run peer apply_config = apply_weights peer
run peer accept_oracle = accept_oracle_admin peer
run peer (register a v weight) = register_voter a v weight
run peer (update_weight a v weight) = update_voter_weight a v weight
run peer (deregister a v) = deregister_voter a v
run peer (cancel a id) = cancel_proposal a id

-- One committed invocation. The environment and the answers of the credit oracle may differ from
-- call to call.
pub data Step (s t : Governance) : Type 0 where
  invocation : (peer : Peer) (req : Request) (env : Env) → run peer req env s ≡ ok tt t → Step s t

pub data Reach (s : Governance) : Governance → Type 0 where
  here : Reach s s
  next : {t u : Governance} → Reach s t → Step t u → Reach s u
