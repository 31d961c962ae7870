-- ===== src/CreditOracle/Tests.antt =====
-- Concrete states of the credit oracle; the child modules apply the theorems to them.
pub mod Scores
pub mod Access
pub mod Repayments
use stellar_did_credit.Base.{
  [], false, nat_eq, none, pair_eq, pos, put, refl, some, string_eq, true, ℕ, ◌*◌, ◌∷◌,
}
use stellar_did_credit.Host.{Address, Env, Symbol}
use stellar_did_credit.CreditOracle.Types.{IdentityClient, TxStats, pending}
use stellar_did_credit.CreditOracle.State.{Event, Oracle, deployed, layout_v2}
use stellar_did_credit.CreditOracle.Admin.{default_weights, initialize}
use stellar_did_credit.CreditOracle.Steps.{Reach, here, initialize_with, invocation, next, run}

-- Everybody authorized the invocation, at this ledger.
abbrev pub signed_at : ℕ → Env
signed_at ledger = record {
  sequence = ledger;
  timestamp = 5 * ledger;
  authorized = λ _. true;
  strkey = λ _. [];
  current_contract = 0;
}

-- An identity oracle with one credential for each subject, of the type `employment`.
abbrev pub one_credential : IdentityClient
one_credential = record {
  get_active_vc_count = λ oracle u. some 1;
  is_deactivated = λ oracle u. some false;
  get_vc_details = λ oracle u.
      some (record { vc_hash = 500; issuer = 7; anchored_at = 0; revoked = false } ∷ []);
  verify_vc = λ oracle u h. some true;
  get_vc_credential_type = λ oracle u h. some "employment";
  get_last_state_change_ledger = λ oracle u. some none;
}

abbrev pub stats : TxStats
stats = record { volume_30d = pos 4000000000; tx_count_30d = 12; avg_counterparties = 25 }

abbrev pub disputed : Address × Symbol
disputed = (10, "tx_stats")

-- Administrator 1, feeder 2, lender 3, identity oracle 9, and two subjects: 10 has a history, and
-- a pending dispute of it; 11 has none.
abbrev pub live : Oracle
live = record deployed {
  admin = some 1;
  storage_version = some 2;
  config = some default_weights;
  compute_cooldown_ledgers = some 1;
  feeders_index = some (2 ∷ []);
  trusted_feeder = put 2 true (λ _. none);
  lenders_index = some (3 ∷ []);
  trusted_lender = put 3 true (λ _. none);
  identity_oracle_id = some 9;
  tx_stats = put 10 stats (λ _. none);
  repayment_record =
      put 10
        (layout_v2 (record { on_time_count = 3; total_count = 4; total_repaid = pos 1000000000 }))
        (λ _. none);
  dispute_index = put 10 ("tx_stats" ∷ []) (λ _. none);
  dispute =
      put disputed
        (record {
          subject = 10;
          input_key = "tx_stats";
          reason = "wrong volume";
          filed_at_ledger = 40;
          status = pending;
        })
        (λ _. none);
}

abbrev pub started : Oracle
started = record deployed {
  admin = some 1;
  config = some (record { vc_weight = 40; tx_weight = 30; repayment_weight = 30 });
  compute_cooldown_ledgers = some 1;
  storage_version = some 2;
  events = Event.initialized 1 ∷ [];
}

pub Reach-started : Reach deployed started
unfolding run initialize
Reach-started = next here (invocation one_credential (initialize_with 1) (signed_at 10) refl)
