-- ===== src/CreditOracle/Disputes.antt =====
-- Disputes of score inputs in contracts/credit-oracle/src/lib.rs.
use stellar_did_credit.Base.{
  Bool, List, Option, String, [], contains, false, if◌then◌else◌, nat_eq, none, not, pair_eq,
  push_back, put, some, string_eq, true, unwrap_or, ◌==◌, ◌||◌, ◌∷◌,
}
use stellar_did_credit.Host.{
  Address, Symbol, asks, expect, fail_if, gets, modify, ok_or, pure, require_auth, ◌>>=◌, ◌>>◌,
}
use stellar_did_credit.CreditOracle.Types.{
  DisputeRecord, DisputeStatus, dispute_already_pending, dispute_not_found, invalid_input_key,
  pending, rejected, resolved,
}
use stellar_did_credit.CreditOracle.State.{Event, Method, Oracle, emit}

unfoldable pub is_input_key : Symbol → Bool
is_input_key key = key == "tx_stats" || key == "repayment" || key == "vc_count"

abbrev pub is_pending : DisputeStatus → Bool
is_pending pending = true
is_pending resolved = false
is_pending rejected = false

abbrev pub has_pending : Option DisputeRecord → Bool
has_pending none = false
has_pending (some existing) = is_pending existing.status

unfoldable pub flag_score_input : Address → Symbol → String → Method (Unit {0})
unfolding is_input_key
flag_score_input subject input_key reason = do
  require_auth subject
  fail_if (not (is_input_key input_key)) invalid_input_key
  existing ← gets (λ s. s.dispute (subject, input_key))
  fail_if (has_pending existing) dispute_already_pending
  ledger ← asks (λ env. env.sequence)
  let filed : DisputeRecord = record {
    subject = subject;
    input_key = input_key;
    reason = reason;
    filed_at_ledger = ledger;
    status = pending;
  }
  modify (λ s. record s { dispute = put (subject, input_key) filed s.dispute })
  stored ← gets (λ s. s.dispute_index subject)
  let disputed_keys = unwrap_or stored []
  if contains input_key disputed_keys
      then pure tt
      else modify (λ s. record s {
        dispute_index = put subject (push_back disputed_keys input_key) s.dispute_index;
      })
  emit (Event.dspt_fild subject input_key)

unfoldable pub resolve_dispute : Address → Symbol → Bool → Method (Unit {0})
resolve_dispute subject input_key accepted = do
  stored ← gets (λ s. s.admin)
  stored_admin ← expect stored
  require_auth stored_admin
  existing ← gets (λ s. s.dispute (subject, input_key))
  filed ← ok_or existing dispute_not_found
  fail_if (not (is_pending filed.status)) dispute_not_found
  let closed : DisputeRecord = record filed { status = if accepted then resolved else rejected }
  modify (λ s. record s { dispute = put (subject, input_key) closed s.dispute })
  if accepted
      then emit (Event.dspt_rslv subject input_key)
      else emit (Event.dspt_rjct subject input_key)

unfoldable pub get_dispute : Oracle → Address → Symbol → Option DisputeRecord
get_dispute s subject input_key = s.dispute (subject, input_key)

-- The loop of `list_disputes`, over the local vector `records`.
unfoldable pub push_disputes :
    Oracle → Address → List Symbol → List DisputeRecord → List DisputeRecord
push_disputes s subject [] records = records
push_disputes s subject (key ∷ rest) records =
    push_disputes s subject rest
      (elim (s.dispute (subject, key)) [ none ↦ records | some r ↦ push_back records r ])

unfoldable pub list_disputes : Oracle → Address → List DisputeRecord
unfolding push_disputes
list_disputes s subject = push_disputes s subject (unwrap_or (s.dispute_index subject) []) []
