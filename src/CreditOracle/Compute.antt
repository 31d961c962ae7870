-- ===== src/CreditOracle/Compute.antt =====
-- `compute_score` of contracts/credit-oracle/src/lib.rs.
use stellar_did_credit.Credential.{IdentityVcRecord}
use stellar_did_credit.Base.{
  Bool, List, Option, [], as_u32, checked_add, checked_div, eq_ℤ, false, if◌then◌else◌, is_empty,
  is_some, length, ltb, min, nat_eq, none, not, pair_eq, pos, put, sat_add, sat_mul, some,
  string_eq, u32_max, unwrap_or, ℕ, ◌&&◌, ◌*◌, ◌-◌, ◌/◌, ◌==◌, ◌∷◌,
}
use stellar_did_credit.Host.{
  Address, Env, Symbol, asks, expect, fail_if, gets, modify, ok_or, pure, ◌>>=◌, ◌>>◌,
}
use stellar_did_credit.CreditOracle.Types.{
  IdentityClient, RecencyDecayConfig, RepaymentRecord, ScoreRecord, TxStats, VcEntry,
  compute_cooldown_active, not_initialized,
}
use stellar_did_credit.CreditOracle.Scoring.{
  apply_recency_bps, compute_score_pure, min_score, recency_multiplier_bps,
}
use stellar_did_credit.CreditOracle.State.{
  Event, Method, Oracle, emit, ensure_not_paused, increment_subjects_scored, load_recency_config,
}
use stellar_did_credit.CreditOracle.Inputs.{no_repayments, no_repayments_v1, read_v1, read_v2}

abbrev pub in_cooldown : ℕ → Env → Option ScoreRecord → Bool
in_cooldown cooldown env none = false
in_cooldown cooldown env (some r) =
    ltb 0 cooldown && ltb (env.sequence - r.computed_at_ledger) cooldown

unfoldable pub check_compute_cooldown : Address → Method (Unit {0})
check_compute_cooldown subject = do
  stored ← gets (λ s. s.compute_cooldown_ledgers)
  record_of ← gets (λ s. s.score subject)
  active ← asks (λ env. in_cooldown (unwrap_or stored 0) env record_of)
  fail_if active compute_cooldown_active

-- The repayment history, read in the layout of the storage version.
unfoldable pub load_repayment : Address → Method RepaymentRecord
unfolding read_v1 read_v2
load_repayment subject = do
  version ← gets (λ s. s.storage_version)
  stored ← gets (λ s. s.repayment_record subject)
  if ltb (unwrap_or version 1) 2
      then (do
        old ← read_v1 stored
        let r = unwrap_or old no_repayments_v1
        pure (record {
          on_time_count = r.on_time_count;
          total_count = r.total_count;
          total_repaid = pos 0;
        }))
      else (do old ← read_v2 stored; pure (unwrap_or old no_repayments))

-- The points of a credential whose type has this weight.
unfoldable pub type_points : ℕ → ℕ
type_points weight = sat_mul u32_max 20 weight / 100

-- The points of a credential of the identity oracle, decayed by its age if decay is on.
unfoldable pub decayed_points : RecencyDecayConfig → ℕ → ℕ → ℕ → ℕ
unfolding type_points recency_multiplier_bps apply_recency_bps
decayed_points cfg now anchored_at weight =
    if cfg.enabled
    then apply_recency_bps (type_points weight)
        (recency_multiplier_bps anchored_at now cfg.decay_bps_per_day cfg.min_recency_bps)
    else type_points weight

-- What both branches compute: the number of credentials, and their points.
pub record VcTally : Type 0 where
  pub vc_count : ℕ
  pub vc_points : ℕ

-- One round of the loop over the records of the identity oracle; one that does not verify is
-- passed over.
unfoldable pub tally_one :
    IdentityClient
    → Address
    → Address
    → RecencyDecayConfig
    → IdentityVcRecord
    → VcTally
    → Method VcTally
tally_one client oracle subject cfg r acc = do
  is_verified ← expect (client.verify_vc oracle subject r.vc_hash)
  if not is_verified then pure acc else do
    vc_count ← expect (checked_add u32_max acc.vc_count 1)
    vc_type ← expect (client.get_vc_credential_type oracle subject r.vc_hash)
    weight ← gets (λ s. unwrap_or (s.vc_weight vc_type) 100)
    now ← asks (λ env. env.timestamp)
    pure (record {
      vc_count = vc_count;
      vc_points = sat_add u32_max acc.vc_points (decayed_points cfg now r.anchored_at weight);
    })

unfoldable pub tally_identity :
    IdentityClient
    → Address
    → Address
    → RecencyDecayConfig
    → List IdentityVcRecord
    → VcTally
    → Method VcTally
unfolding tally_one
tally_identity client oracle subject cfg [] acc = pure acc
tally_identity client oracle subject cfg (r ∷ rest) acc = do
  tally ← tally_one client oracle subject cfg r acc
  tally_identity client oracle subject cfg rest tally

abbrev pub weight_of : Oracle → Option Symbol → ℕ
weight_of s none = 100
weight_of s (some t) = unwrap_or (s.vc_weight t) 100

-- The loop over the contract's own list.
unfoldable pub tally_points : Oracle → List VcEntry → ℕ → ℕ
unfolding type_points
tally_points s [] points = points
tally_points s (entry ∷ rest) points =
    tally_points s rest (sat_add u32_max points (type_points (weight_of s entry.vc_type)))

-- The branch with no identity oracle: the own list, or the cached count if that is empty.
unfoldable pub tally_local : Oracle → Address → VcTally
unfolding tally_points
tally_local s subject =
    let list = unwrap_or (s.vc_list subject) [] in
    let count = unwrap_or (s.vc_count subject) 0 in
    if not (is_empty list)
    then record { vc_count = length list; vc_points = tally_points s list 0 }
    else record { vc_count = count; vc_points = min (sat_mul u32_max count 20) 100 }

abbrev pub no_tally : VcTally
no_tally = record { vc_count = 0; vc_points = 0 }

-- `none` is the early return for a deactivated subject.
unfoldable pub tally_credentials :
    IdentityClient → Address → Option Address → Method (Option VcTally)
unfolding tally_identity tally_local load_recency_config
tally_credentials client subject none = gets (λ s. some (tally_local s subject))
tally_credentials client subject (some oracle) = do
  is_deactivated ← expect (client.is_deactivated oracle subject)
  cfg ← gets load_recency_config
  if is_deactivated then pure none else do
    records ← expect (client.get_vc_details oracle subject)
    tally ← tally_identity client oracle subject cfg records no_tally
    pure (some tally)

unfoldable pub repayment_rate_bps : RepaymentRecord → ℕ
repayment_rate_bps r = as_u32 (unwrap_or (checked_div (r.on_time_count * 10000) r.total_count) 0)

-- The stored record already says all of this.
abbrev pub is_unchanged : Option ScoreRecord → ScoreRecord → Bool
is_unchanged none new = false
is_unchanged (some prev) new =
    prev.score == new.score
    && prev.vc_count == new.vc_count
    && prev.repayment_rate == new.repayment_rate
    && eq_ℤ prev.tx_volume_30d new.tx_volume_30d

abbrev pub score_of : Option ScoreRecord → Option ℕ
score_of none = none
score_of (some r) = some r.score

unfoldable pub store_score : Address → ScoreRecord → Option ScoreRecord → Method (Unit {0})
unfolding increment_subjects_scored
store_score subject new prev = if is_unchanged prev new then pure tt else do
  if is_some prev then pure tt else increment_subjects_scored
  modify (λ s. record s { score = put subject new s.score })

abbrev pub no_tx_stats : TxStats
no_tx_stats = record { volume_30d = pos 0; tx_count_30d = 0; avg_counterparties = 0 }

-- The part of `compute_score` after the credentials were counted.
unfoldable pub finish_score : Address → TxStats → RepaymentRecord → VcTally → Method ℕ
finish_score subject tx repayment tally = do
  config ← gets (λ s. s.config)
  weights ← ok_or config not_initialized
  let score =
      compute_score_pure (min tally.vc_points 100) tx.volume_30d tx.avg_counterparties
        repayment.on_time_count repayment.total_count repayment.total_repaid weights.vc_weight
        weights.tx_weight weights.repayment_weight
  prev ← gets (λ s. s.score subject)
  now ← asks (λ env. env.timestamp)
  ledger ← asks (λ env. env.sequence)
  store_score subject
      (record {
        score = score;
        last_updated = now;
        vc_count = tally.vc_count;
        repayment_rate = repayment_rate_bps repayment;
        tx_volume_30d = tx.volume_30d;
        previous_score = score_of prev;
        computed_at_ledger = ledger;
        stale = false;
      })
      prev
  emit (Event.score subject score)
  pure score

-- A deactivated subject scores the minimum, and nothing is written.
abbrev pub finish_if_active : Address → TxStats → RepaymentRecord → Option VcTally → Method ℕ
finish_if_active subject tx repayment none = pure min_score
finish_if_active subject tx repayment (some tally) = finish_score subject tx repayment tally

-- The part of `compute_score` after its two checks.
unfoldable pub score_inputs : IdentityClient → Address → Method ℕ
score_inputs client subject = do
  stored ← gets (λ s. s.tx_stats subject)
  repayment ← load_repayment subject
  oracle ← gets (λ s. s.identity_oracle_id)
  tally ← tally_credentials client subject oracle
  finish_if_active subject (unwrap_or stored no_tx_stats) repayment tally

unfoldable pub compute_score : IdentityClient → Address → Method ℕ
unfolding ensure_not_paused check_compute_cooldown
compute_score client subject = do
  ensure_not_paused
  check_compute_cooldown subject
  score_inputs client subject
