-- ===== src/CreditOracle/Tests/Access.antt =====
-- The theorems on access, weights, registrations and disputes at concrete states.
use stellar_did_credit.Base.{refl, true, ◌≡◌, ◌≢◌}
use stellar_did_credit.Host.{Address, Ensures, Symbol, committed, ok, trap}
use stellar_did_credit.CreditOracle.Types.{ScoringWeights}
use stellar_did_credit.CreditOracle.State.{Oracle}
use stellar_did_credit.CreditOracle.Weights.{get_pending_weights, propose_weights}
use stellar_did_credit.CreditOracle.Steps.{add_feeder, propose_config, resolve, run}
use stellar_did_credit.CreditOracle.Control.{IsEntitled, run-IsEntitled}
use stellar_did_credit.CreditOracle.Timelock.{
  HasSoundWeights, IsLocked, Reach-deployed-HasSoundWeights, run-IsLocked,
}
use stellar_did_credit.CreditOracle.DisputeMoves.{Moves, run-Moves}
use stellar_did_credit.CreditOracle.Tests.{Reach-started, live, one_credential, signed_at, started}

run-IsEntitled_example :
    Ensures
      (λ _ _. IsEntitled (signed_at 60) live (add_feeder 1 4))
      (run one_credential (add_feeder 1 4) (signed_at 60) live)
run-IsEntitled_example = run-IsEntitled one_credential (add_feeder 1 4) (signed_at 60) live

abbrev fifths : ScoringWeights
fifths = record { vc_weight = 20; tx_weight = 40; repayment_weight = 40 }

run-IsLocked_example :
    Ensures
      (λ _. IsLocked (signed_at 60) live)
      (run one_credential (propose_config fifths) (signed_at 60) live)
run-IsLocked_example = run-IsLocked one_credential (propose_config fifths) (signed_at 60) live

abbrev waiting : Oracle
waiting = committed live (propose_weights fifths (signed_at 60) live)

proposed_fifths : propose_weights fifths (signed_at 60) live ≡ ok tt waiting
unfolding propose_weights
proposed_fifths = refl

Reach-deployed-HasSoundWeights_example :
    HasSoundWeights started × (get_pending_weights (signed_at 60) started ≢ trap)
Reach-deployed-HasSoundWeights_example = Reach-deployed-HasSoundWeights (signed_at 60) Reach-started

run-Moves_example :
    Ensures
      (λ _ t.
        (u : Address) (k : Symbol)
        → Moves (signed_at 60) live u k (live.dispute (u, k)) (t.dispute (u, k)))
      (run one_credential (resolve 10 "tx_stats" true) (signed_at 60) live)
run-Moves_example = run-Moves one_credential (resolve 10 "tx_stats" true) (signed_at 60) live
