-- ===== src/CreditOracle/Reading.antt =====
-- `get_score` of contracts/credit-oracle/src/lib.rs: the stored score, and whether it is stale.
use stellar_did_credit.Base.{Bool, Option, false, ltb, none, some, ℕ, ◌-◌, ◌||◌}
use stellar_did_credit.Host.{Address, Env}
use stellar_did_credit.CreditOracle.Types.{IdentityClient, ScoreRecord}
use stellar_did_credit.CreditOracle.State.{Oracle}

abbrev pub stale_ledger_age : ℕ
stale_ledger_age = 86400

-- Whether the identity oracle reports a change after the ledger of the score; an oracle that
-- traps reports none.
abbrev pub changed_since : ℕ → Option (Option ℕ) → Bool
changed_since computed_at none = false
changed_since computed_at (some none) = false
changed_since computed_at (some (some change_ledger)) = ltb computed_at change_ledger

abbrev pub outdated : IdentityClient → Address → ℕ → Option Address → Bool
outdated client subject computed_at none = false
outdated client subject computed_at (some oracle) =
    changed_since computed_at (client.get_last_state_change_ledger oracle subject)

unfoldable pub get_score : IdentityClient → Env → Oracle → Address → Option ScoreRecord
get_score client env s subject = elim (s.score subject) [
  | none ↦ none
  | some r ↦ some (record r {
    stale =
        ltb stale_ledger_age (env.sequence - r.computed_at_ledger)
        || outdated client subject r.computed_at_ledger s.identity_oracle_id;
  })
]
