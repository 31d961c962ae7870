-- ===== src/Governance/State.antt =====
-- Proposals, errors, storage and events of contracts/governance/src/lib.rs.
use stellar_did_credit.Base.{Bool, List, Map, Option, [], none, ℕ, ℤ, ◌∷◌}
use stellar_did_credit.Host.{Address, Call, modify}
use stellar_did_credit.CreditOracle.Types.{CreditOracleError, ScoringWeights}

pub data GovernanceError : Type 0 where
  already_initialized not_authorized proposal_not_found proposal_expired proposal_not_expired
        proposal_already_executed invalid_weights invalid_quorum invalid_vote_weight quorum_not_met
        timelock_not_expired voter_not_registered insufficient_vote_weight
        proposal_already_cancelled no_pending_weights contract_paused vote_tally_overflow
        proposal_rejected invalid_voting_period :
      GovernanceError

pub record GovernanceProposal : Type 0 where
  pub id : ℕ
  pub proposer : Address
  pub proposed_weights : ScoringWeights
  pub votes_for : ℤ
  pub votes_against : ℤ
  pub expiry_ledger : ℕ
  pub execution_delay_ledgers : ℕ
  pub executed : Bool
  pub cancelled : Bool
  pub quorum_required : ℤ

pub data Event : Type 0 where
  initialized : Address → Address → Event
  prop_creat : ℕ → Address → ℕ → Event
  voted : ℕ → Address → Bool → ℤ → Event
  prop_exec : ℕ → ℤ → ℤ → Event
  v_cln : ℕ → ℕ → Event
  wt_applied : ℕ → Event
  voter_reg voter_upd : Address → ℤ → Event
  voter_der : Address → Event
  prop_canc : ℕ → Address → Event

-- A call of the credit oracle at an address.
pub data OracleCall : Type 0 where
  propose_weights_at : Address → ScoringWeights → OracleCall
  apply_weights_at : Address → OracleCall
  accept_admin_at : Address → Address → OracleCall

-- How such a call ends: with a result, a typed error, or a trap.
pub data Reply : Type 0 where
  returned : Reply
  failed : CreditOracleError → Reply
  aborted : Reply

-- What the credit oracle answers during one invocation.
abbrev pub Peer : Type 0
Peer = OracleCall → Reply

-- A field for each constructor of `DataKey`; then what leaves the contract, newest first.
pub record Governance : Type 0 where
  pub admin : Option Address
  pub credit_oracle : Option Address
  pub next_proposal_id : Option ℕ
  pub quorum_required : Option ℤ
  pub quorum_percent : Option ℕ
  pub proposal : Map ℕ GovernanceProposal
  pub proposer : Map ℕ Address
  pub voter_weight : Map Address ℤ
  pub vote_weight_used : Map (ℕ × Address) ℤ
  pub total_registered_weight : Option ℤ
  pub events : List Event
  pub calls : List OracleCall

-- A contract that was just deployed.
abbrev pub deployed : Governance
deployed = record {
  admin = none;
  credit_oracle = none;
  next_proposal_id = none;
  quorum_required = none;
  quorum_percent = none;
  proposal = λ _. none;
  proposer = λ _. none;
  voter_weight = λ _. none;
  vote_weight_used = λ _. none;
  total_registered_weight = none;
  events = [];
  calls = [];
}

abbrev pub Method : Type 0 → Type 0
Method A = Call GovernanceError Governance A

abbrev pub emit : Event → Method (Unit {0})
emit e = modify (λ s. record s { events = e ∷ s.events })

abbrev pub first_proposal_id : ℕ
first_proposal_id = 1
