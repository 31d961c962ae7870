-- ===== src/Governance/Outcomes.antt =====
-- How proposals end, what a cleanup removes, and every request as one relation.
use stellar_did_credit.Base.{
  Bool, List, Map, [], arith, checked_add_i128, false, inl, inr, leb_ℤ, length, nat_eq, none,
  pair_eq, pos, put, refl, remove, sat_add, some, true, u32_max, ℕ, ℤ, ◌<◌, ◌∷◌, ◌≡◌, ◌⊎◌,
}
use stellar_did_credit.Host.{
  Address, Ensures, Ensures-bind, Ensures-imp, Ensures-map, Env, ok, pure,
}
use stellar_did_credit.CreditOracle.Types.{ScoringWeights}
use stellar_did_credit.Governance.State.{
  Event, Governance, GovernanceProposal, Peer, first_proposal_id, propose_weights_at, returned,
}
use stellar_did_credit.Governance.Admin.{
  accept_oracle_admin, apply_weights, initialize, set_quorum, set_quorum_percent,
}
use stellar_did_credit.Governance.Voters.{
  cleanup_proposal_votes, deregister_voter, register_voter, remove_votes, update_voter_weight, vote,
}
use stellar_did_credit.Governance.Proposals.{cancel_proposal, create_proposal, execute}
use stellar_did_credit.Governance.Steps.{
  Request, accept_oracle, apply_config, cancel, cast, cleanup, create, deregister, execute_one,
  initialize_with, register, run, set_percent, set_quorum_to, update_weight,
}
use stellar_did_credit.Governance.Effects.{
  Casts, Creates, Settled, Weighs, create_proposal-Creates, deregister_voter-Weighs,
  register_voter-Weighs, update_voter_weight-Weighs, vote-Casts,
}

-- An execution: both periods are over, the votes carry the proposal, and the credit oracle at the
-- stored address took the weights.
abbrev pub Executes : Peer → Env → ℕ → Governance → Governance → Type 0
Executes peer env id s t =
    (p : GovernanceProposal) × (s.proposal id ≡ some p)
    × (p.executed ≡ false)
    × (p.cancelled ≡ false)
    × (p.expiry_ledger < env.sequence)
    × (sat_add u32_max p.expiry_ledger p.execution_delay_ledgers < env.sequence)
    × (leb_ℤ p.votes_for p.votes_against ≡ false)
    × (votes : ℤ) × (checked_add_i128 p.votes_for p.votes_against ≡ some votes)
    × (leb_ℤ p.quorum_required votes ≡ true)
    × (o : Address) × (s.credit_oracle ≡ some o)
    × (peer (propose_weights_at o p.proposed_weights) ≡ returned)
    × (t ≡ record s {
      proposal = put id (record p { executed = true }) s.proposal;
      events = Event.prop_exec id p.votes_for p.votes_against ∷ s.events;
      calls = propose_weights_at o p.proposed_weights ∷ s.calls;
    })

pub execute-Executes :
    (peer : Peer) (id : ℕ) (env : Env) (s : Governance)
    → Ensures (λ _. Executes peer env id s) (execute peer id env s)
unfolding execute
execute-Executes peer id env s = grind arith

-- A cancellation by the proposer or the administrator.
abbrev pub Cancels : Env → Address → ℕ → Governance → Governance → Type 0
Cancels env a id s t =
    (p : GovernanceProposal) × (s.proposal id ≡ some p)
    × (p.executed ≡ false)
    × (p.cancelled ≡ false)
    × (env.authorized a ≡ true)
    × ((s.admin ≡ some a) ⊎ (s.proposer id ≡ some a))
    × (t ≡ record s {
      proposal = put id (record p { cancelled = true }) s.proposal;
      events = Event.prop_canc id a ∷ s.events;
    })

pub cancel_proposal-Cancels :
    (a : Address) (id : ℕ) (env : Env) (s : Governance)
    → Ensures (λ _. Cancels env a id s) (cancel_proposal a id env s)
unfolding cancel_proposal
cancel_proposal-Cancels a id env s = grind arith

-- What is left of the used weight once a cleanup names these voters.
abbrev pub removed : ℕ → List Address → Map (ℕ × Address) ℤ → Map (ℕ × Address) ℤ
removed id [] used = used
removed id (v ∷ vs) used = removed id vs (remove (id, v) used)

remove_votes_lem :
    (id : ℕ) (vs : List Address) (env : Env) (s : Governance)
    → remove_votes id vs env s
      ≡ ok tt (record s { vote_weight_used = removed id vs s.vote_weight_used })
unfolding remove_votes
remove_votes_lem id [] env s = refl
remove_votes_lem id (v ∷ vs) env s =
    remove_votes_lem id vs env (record s { vote_weight_used = remove (id, v) s.vote_weight_used })

-- A cleanup of an executed proposal by the administrator.
abbrev pub Cleans : Env → ℕ → List Address → Governance → Governance → Type 0
Cleans env id vs s t =
    (p : GovernanceProposal) × (s.proposal id ≡ some p)
    × (p.executed ≡ true)
    × (a : Address) × (s.admin ≡ some a)
    × (env.authorized a ≡ true)
    × (t ≡ record s {
      vote_weight_used = removed id vs s.vote_weight_used;
      events = Event.v_cln id (length vs) ∷ s.events;
    })

pub cleanup_proposal_votes-Cleans :
    (a : Address) (id : ℕ) (vs : List Address) (env : Env) (s : Governance)
    → Ensures (λ _ t. Cleans env id vs s t ⊎ (t ≡ s)) (cleanup_proposal_votes a id vs env s)
unfolding cleanup_proposal_votes
cleanup_proposal_votes-Cleans a id vs env s = grind (arith, remove_votes_lem id vs env s)

-- The start of the contract.
abbrev pub Starts : Env → Governance → Governance → Type 0
Starts env s t =
    (s.admin ≡ none)
    × (a : Address) × (o : Address) × (q : ℤ) × (env.authorized a ≡ true)
    × (leb_ℤ q (pos 0) ≡ false)
    × (t ≡ record s {
      admin = some a;
      credit_oracle = some o;
      next_proposal_id = some first_proposal_id;
      quorum_required = some q;
      events = Event.initialized a o ∷ s.events;
    })

pub initialize-Starts :
    (a o : Address) (q : ℤ) (env : Env) (s : Governance)
    → Ensures (λ _. Starts env s) (initialize a o q env s)
unfolding initialize
initialize-Starts a o q env s = grind arith

-- What a request does.
pub data Effect (peer : Peer) (env : Env) (s t : Governance) : Type 0 where
  starts : Starts env s t → Effect peer env s t
  settles : Settled s t → Effect peer env s t
  weighs : (v : Address) (w : ℤ) → Weighs env v w s t → Effect peer env s t
  creates :
      (a : Address) (w : ScoringWeights) (period delay id : ℕ)
      → Creates env a w period delay id s t
      → Effect peer env s t
  casts :
      (v : Address) (id : ℕ) (for : Bool) (w : ℤ) → Casts env v id for w s t → Effect peer env s t
  executes : (id : ℕ) → Executes peer env id s t → Effect peer env s t
  cancels : (a : Address) (id : ℕ) → Cancels env a id s t → Effect peer env s t
  cleans : (id : ℕ) (vs : List Address) → Cleans env id vs s t → Effect peer env s t

module _ (peer : Peer) (env : Env) (s : Governance) where
  set_quorum-Settled : (a : Address) (q : ℤ) → Ensures (λ _. Settled s) (set_quorum a q env s)
  unfolding set_quorum
  set_quorum-Settled a q = grind arith

  set_quorum_percent-Settled :
      (a : Address) (n : ℕ) → Ensures (λ _. Settled s) (set_quorum_percent a n env s)
  unfolding set_quorum_percent
  set_quorum_percent-Settled a n = grind arith

  apply_weights-Settled : Ensures (λ _. Settled s) (apply_weights peer env s)
  unfolding apply_weights
  apply_weights-Settled = grind arith

  accept_oracle_admin-Settled : Ensures (λ _. Settled s) (accept_oracle_admin peer env s)
  unfolding accept_oracle_admin
  accept_oracle_admin-Settled = grind arith

pub run-Effect :
    (peer : Peer) (req : Request) (env : Env) (s : Governance)
    → Ensures (λ _. Effect peer env s) (run peer req env s)
unfolding run
run-Effect peer (initialize_with a o q) env s =
    Ensures-imp (λ t. starts) (initialize a o q env s) (initialize-Starts a o q env s)
run-Effect peer (set_quorum_to a q) env s =
    Ensures-imp (λ t. settles) (set_quorum a q env s) (set_quorum-Settled peer env s a q)
run-Effect peer (set_percent a n) env s =
    Ensures-imp (λ t. settles) (set_quorum_percent a n env s)
      (set_quorum_percent-Settled peer env s a n)
run-Effect peer (create a w period delay) env s =
    Ensures-bind (λ _. Effect peer env s) (create_proposal a w period delay) (λ _. pure tt) env s
      (Ensures-map (λ id t. creates a w period delay id) (create_proposal a w period delay env s)
        (create_proposal-Creates a w period delay env s))
run-Effect peer (cast v id for w) env s =
    Ensures-imp (λ t. casts v id for w) (vote v id for w env s) (vote-Casts v id w env s for)
run-Effect peer (execute_one id) env s =
    Ensures-imp (λ t. executes id) (execute peer id env s) (execute-Executes peer id env s)
run-Effect peer (cleanup a id vs) env s =
    Ensures-imp (λ t. cleaned) (cleanup_proposal_votes a id vs env s)
      (cleanup_proposal_votes-Cleans a id vs env s)
  where
    cleaned : {t : Governance} → Cleans env id vs s t ⊎ (t ≡ s) → Effect peer env s t
    cleaned (inl c) = cleans id vs c
    cleaned (inr e) = settles (ground arith)
run-Effect peer apply_config env s =
    Ensures-imp (λ t. settles) (apply_weights peer env s) (apply_weights-Settled peer env s)
run-Effect peer accept_oracle env s =
    Ensures-imp (λ t. settles) (accept_oracle_admin peer env s)
      (accept_oracle_admin-Settled peer env s)
run-Effect peer (register a v w) env s =
    Ensures-imp (λ t. weighs v w) (register_voter a v w env s) (register_voter-Weighs a v env s w)
run-Effect peer (update_weight a v w) env s =
    Ensures-imp (λ t. weighs v w) (update_voter_weight a v w env s)
      (update_voter_weight-Weighs a v env s w)
run-Effect peer (deregister a v) env s =
    Ensures-imp (λ t. weighs v (pos 0)) (deregister_voter a v env s)
      (deregister_voter-Weighs a v env s)
run-Effect peer (cancel a id) env s =
    Ensures-imp (λ t. cancels a id) (cancel_proposal a id env s)
      (cancel_proposal-Cancels a id env s)
