-- ===== src/Together/Enacting.antt =====
-- A carried proposal of the governance contract (contracts/governance/src/lib.rs) takes effect in the
-- credit oracle (contracts/credit-oracle/src/lib.rs) that it administers.
use stellar_did_credit.Base.{Bool, false, none, nat_eq, some, true, ℕ, ◌+◌, ◌∷◌, ◌≡◌}
use stellar_did_credit.Host.{Address, Env, err, ok}
use stellar_did_credit.CreditOracle.Types.{ScoringWeights}
use stellar_did_credit.CreditOracle.State.{Event, Oracle}
use stellar_did_credit.CreditOracle.Admin.{is_paused}
use stellar_did_credit.CreditOracle.Weights
use stellar_did_credit.CreditOracle.Weights.{timelock_ledgers}
use stellar_did_credit.Governance.State.{
  Event as GovernanceEvent, Governance, apply_weights_at, timelock_not_expired,
}
use stellar_did_credit.Governance.Admin.{apply_weights}
use stellar_did_credit.Together.Peers.{answer_of, peer_of}

-- The oracle with weights queued at a ledger.
abbrev pub queued : ScoringWeights → ℕ → Oracle → Oracle
queued w ledger x = record x {
  pending_weights = some w;
  pending_weights_effective_ledger = some (ledger + timelock_ledgers);
  events = Event.wt_prop w (ledger + timelock_ledgers) ∷ x.events;
}

-- The answer to an application of queued weights, early or not.
abbrev pub TakesEffect : Address → ScoringWeights → Env → Governance → Oracle → Bool → Type 0
TakesEffect at w later t y true =
    (apply_weights (peer_of at later y) later t ≡ err timelock_not_expired)
TakesEffect at w later t y false =
    (u : Governance) × (apply_weights (peer_of at later y) later t ≡ ok tt u)
    × (z : Oracle) × (answer_of at later y (apply_weights_at at) ≡ ok tt z)
    × (z.config ≡ some w)

-- What an application leaves in the two contracts.
abbrev pub accepted : Address → Env → Governance → Governance
accepted at later t = record t {
  events = GovernanceEvent.wt_applied later.sequence ∷ t.events;
  calls = apply_weights_at at ∷ t.calls;
}

abbrev pub applied : ScoringWeights → Oracle → Oracle
applied w y = record y {
  config = some w;
  pending_weights = none;
  pending_weights_effective_ledger = none;
  events = Event.wt_apply w ∷ y.events;
}

-- In an oracle, the weights wait for a ledger and nothing is paused.
abbrev pub IsQueued : ScoringWeights → ℕ → Oracle → Type 0
IsQueued w ledger y =
    (y.pending_weights ≡ some w)
    × (y.pending_weights_effective_ledger ≡ some ledger)
    × (is_paused y ≡ false)
