-- ===== src/CreditOracle/Inputs.antt =====
-- The entry points that record score inputs in contracts/credit-oracle/src/lib.rs.
use stellar_did_credit.Base.{
  Bool, List, Option, [], false, if◌then◌else◌, is_some, leb_ℤ, ltb, nat_eq, none, not, pair_eq,
  pos, push_back, put, sat_add, sat_add_i128, some, string_eq, u32_max, unwrap_or, ℕ, ℤ, ◌==◌, ◌||◌,
  ◌∷◌,
}
use stellar_did_credit.Host.{
  Address, Hash, Symbol, fail_if, gets, modify, ok_or, panic, pure, require_auth, ◌>>=◌, ◌>>◌,
}
use stellar_did_credit.CreditOracle.Types.{
  RepaymentRecord, RepaymentRecordV1, TxStats, VcEntry, feeder_not_registered, invalid_amount,
  lender_not_registered, not_initialized,
}
use stellar_did_credit.CreditOracle.State.{
  Event, Method, Oracle, StoredRepayment, emit, ensure_not_paused, increment_repayments_recorded,
  layout_v1, layout_v2,
}

-- The guard of the entry points for feeders.
unfoldable pub expect_feeder : Address → Method (Unit {0})
expect_feeder feeder = do
  require_auth feeder
  trusted ← gets (λ s. s.trusted_feeder feeder)
  fail_if (not (unwrap_or trusted false)) feeder_not_registered

unfoldable pub update_tx_stats : Address → Address → TxStats → Method (Unit {0})
unfolding ensure_not_paused expect_feeder
update_tx_stats feeder subject stats = do
  ensure_not_paused
  expect_feeder feeder
  modify (λ s. record s { tx_stats = put subject stats s.tx_stats })

-- A typed `get` of a repayment record: absent, decoded, or a trap if the entry has the other
-- layout.
unfoldable pub read_v1 : Option StoredRepayment → Method (Option RepaymentRecordV1)
read_v1 none = pure none
read_v1 (some (layout_v1 r)) = pure (some r)
read_v1 (some (layout_v2 r)) = panic

unfoldable pub read_v2 : Option StoredRepayment → Method (Option RepaymentRecord)
read_v2 none = pure none
read_v2 (some (layout_v1 r)) = panic
read_v2 (some (layout_v2 r)) = pure (some r)

abbrev pub no_repayments_v1 : RepaymentRecordV1
no_repayments_v1 = record { on_time_count = 0; total_count = 0 }

abbrev pub no_repayments : RepaymentRecord
no_repayments = record { on_time_count = 0; total_count = 0; total_repaid = pos 0 }

-- The counters of one more repayment.
abbrev pub count_on_time : Bool → ℕ → ℕ
count_on_time on_time n = if on_time then sat_add u32_max n 1 else n

unfoldable pub write_repayment : Address → StoredRepayment → Method (Unit {0})
write_repayment subject r =
    modify (λ s. record s { repayment_record = put subject r s.repayment_record })

unfoldable pub record_v1 : Address → Bool → Method (Unit {0})
unfolding read_v1 write_repayment
record_v1 subject on_time = do
  stored ← gets (λ s. s.repayment_record subject)
  old ← read_v1 stored
  let r = unwrap_or old no_repayments_v1
  write_repayment subject (
      layout_v1 (record {
        on_time_count = count_on_time on_time r.on_time_count;
        total_count = sat_add u32_max r.total_count 1;
      }))

-- A record of the current layout after one more repayment.
unfoldable pub repaid : ℤ → Bool → RepaymentRecord → RepaymentRecord
repaid amount on_time r = record {
  on_time_count = count_on_time on_time r.on_time_count;
  total_count = sat_add u32_max r.total_count 1;
  total_repaid = sat_add_i128 r.total_repaid amount;
}

unfoldable pub record_v2 : Address → ℤ → Bool → Method (Unit {0})
unfolding read_v2 write_repayment
record_v2 subject amount on_time = do
  stored ← gets (λ s. s.repayment_record subject)
  old ← read_v2 stored
  write_repayment subject (layout_v2 (repaid amount on_time (unwrap_or old no_repayments)))

unfoldable pub record_repayment : Address → Address → ℤ → Bool → Method (Unit {0})
unfolding ensure_not_paused record_v1 record_v2 increment_repayments_recorded
record_repayment lender subject amount on_time = do
  fail_if (leb_ℤ amount (pos 0)) invalid_amount
  ensure_not_paused
  require_auth lender
  trusted ← gets (λ s. s.trusted_lender lender)
  fail_if (not (unwrap_or trusted false)) lender_not_registered
  version ← gets (λ s. s.storage_version)
  if ltb (unwrap_or version 1) 2
      then record_v1 subject on_time
      else record_v2 subject amount on_time
  increment_repayments_recorded

-- The body of the loop of `migrate`.
unfoldable pub migrate_subject : Address → Option RepaymentRecordV1 → Method (Unit {0})
unfolding write_repayment
migrate_subject subject none = pure tt
migrate_subject subject (some v1) = write_repayment subject (
    layout_v2 (record {
      on_time_count = v1.on_time_count;
      total_count = v1.total_count;
      total_repaid = pos 0;
    }))

unfoldable pub migrate_each : List Address → Method (Unit {0})
unfolding read_v1 migrate_subject
migrate_each [] = pure tt
migrate_each (subject ∷ rest) = do
  stored ← gets (λ s. s.repayment_record subject)
  v1 ← read_v1 stored
  migrate_subject subject v1
  migrate_each rest

unfoldable pub migrate : List Address → Method (Unit {0})
unfolding migrate_each
migrate subjects = do
  stored ← gets (λ s. s.admin)
  admin ← ok_or stored not_initialized
  require_auth admin
  migrate_each subjects
  modify (λ s. record s { storage_version = some 2 })

unfoldable pub set_vc_count : Address → Address → ℕ → Method (Unit {0})
unfolding ensure_not_paused expect_feeder
set_vc_count feeder subject count = do
  ensure_not_paused
  expect_feeder feeder
  oracle ← gets (λ s. s.identity_oracle_id)
  if is_some oracle then emit (Event.vc_cnt_dep subject count) else pure tt
  modify (λ s. record s { vc_count = put subject count s.vc_count })

-- The loop that looks for the credential in the list.
unfoldable pub has_vc : Hash → List VcEntry → Bool
has_vc vc_id [] = false
has_vc vc_id (entry ∷ rest) = entry.vc_id == vc_id || has_vc vc_id rest

unfoldable pub anchor_vc : Address → Address → Hash → Option Symbol → Method (Unit {0})
unfolding ensure_not_paused expect_feeder has_vc
anchor_vc feeder user vc_id vc_type = do
  ensure_not_paused
  expect_feeder feeder
  stored ← gets (λ s. s.vc_list user)
  let list = unwrap_or stored []
  if has_vc vc_id list then pure tt else do
    modify (λ s. record s {
      vc_list = put user (push_back list (record { vc_id = vc_id; vc_type = vc_type })) s.vc_list;
    })
    emit (Event.vc_anch_cr user vc_type)

unfoldable pub get_vc_list : Oracle → Address → List VcEntry
get_vc_list s user = unwrap_or (s.vc_list user) []
