-- ===== src/CreditOracle/Writes.antt =====
-- What `compute_score` leaves in the state, and its cooldown.
use stellar_did_credit.Base.{
  Bool, Option, Option-cases, ap, arith, false, if◌then◌else◌, inl, inr, is_some, min, nat_eq, none,
  not, put, refl, some, true, unwrap_or, ℕ, ◌+◌, ◌<◌, ◌∷◌, ◌≡◌, ◌≤◌, ◌⊎◌,
}
use stellar_did_credit.Host.{
  Address, Ensures, Ensures-bind, Ensures-map, Env, ensured, err, ok, ok_or, pure, ◌>>◌,
}
use stellar_did_credit.CreditOracle.Types.{
  IdentityClient, RepaymentRecord, ScoreRecord, ScoringWeights, TxStats, compute_cooldown_active,
}
use stellar_did_credit.CreditOracle.State.{Event, Oracle, emit, load_protocol_stats}
use stellar_did_credit.CreditOracle.Scoring.{compute_score_pure, min_score}
use stellar_did_credit.CreditOracle.Compute.{
  VcTally, compute_score, finish_score, is_unchanged, load_repayment, no_tx_stats,
  repayment_rate_bps, score_of, store_score, tally_credentials,
}
use stellar_did_credit.CreditOracle.Scores.{compute_score-Ensures}

-- The score and the record of the inputs that were read.
abbrev pub final_score : TxStats → RepaymentRecord → VcTally → ScoringWeights → ℕ
final_score tx r tally w =
    compute_score_pure (min tally.vc_points 100) tx.volume_30d tx.avg_counterparties r.on_time_count
      r.total_count r.total_repaid w.vc_weight w.tx_weight w.repayment_weight

abbrev pub fresh_record :
    Env → Option ScoreRecord → TxStats → RepaymentRecord → VcTally → ScoringWeights → ScoreRecord
fresh_record env prev tx r tally w = record {
  score = final_score tx r tally w;
  last_updated = env.timestamp;
  vc_count = tally.vc_count;
  repayment_rate = repayment_rate_bps r;
  tx_volume_30d = tx.volume_30d;
  previous_score = score_of prev;
  computed_at_ledger = env.sequence;
  stale = false;
}

-- The identity oracle, if one is linked, says that the subject is deactivated.
abbrev pub is_gone : IdentityClient → Address → Option Address → Bool
is_gone client u none = false
is_gone client u (some oracle) = unwrap_or (client.is_deactivated oracle u) false

-- A record of a computation at `env` from the inputs.
abbrev pub IsFresh :
    Env → Option ScoreRecord → TxStats → RepaymentRecord → VcTally → ℕ → ScoreRecord → Type 0
IsFresh env prev tx r tally score new =
    (new.score ≡ score)
    × (new.vc_count ≡ tally.vc_count)
    × (new.repayment_rate ≡ repayment_rate_bps r)
    × (new.tx_volume_30d ≡ tx.volume_30d)
    × (new.computed_at_ledger ≡ env.sequence)
    × (new.last_updated ≡ env.timestamp)
    × (new.previous_score ≡ score_of prev)
    × (new.stale ≡ false)

-- What the last part does with the inputs.
abbrev pub Stores :
    Address → Env → Oracle → TxStats → RepaymentRecord → VcTally → ℕ → Oracle → Type 0
Stores u env s tx r tally score t =
    (w : ScoringWeights) × (s.config ≡ some w)
    × (score ≡ final_score tx r tally w)
    × (new : ScoreRecord) × IsFresh env (s.score u) tx r tally score new
    × (t.score ≡ (if is_unchanged (s.score u) new then s.score else put u new s.score))
    × ((load_protocol_stats t).total_subjects_scored
        ≡ (load_protocol_stats s).total_subjects_scored + (if is_some (s.score u) then 0 else 1))
    × (t.events ≡ Event.score u score ∷ s.events)

abbrev pub Writes : IdentityClient → Address → Env → Oracle → ℕ → Oracle → Type 0
Writes client u env s score t =
    ((is_gone client u s.identity_oracle_id ≡ true) × (score ≡ min_score) × (t ≡ s))
    ⊎ ((is_gone client u s.identity_oracle_id ≡ false)
        × (r : RepaymentRecord) × (load_repayment u env s ≡ ok r s)
        × (tally : VcTally) × (tally_credentials client u s.identity_oracle_id env s
            ≡ ok (some tally) s)
        × Stores u env s (unwrap_or (s.tx_stats u) no_tx_stats) r tally score t)

store_score-Stores :
    (u : Address) (new : ScoreRecord) (env : Env) (s : Oracle)
    → Ensures
        (λ _ t.
          (t.score ≡ (if is_unchanged (s.score u) new then s.score else put u new s.score))
          × ((load_protocol_stats t).total_subjects_scored
              ≡ (load_protocol_stats s).total_subjects_scored
                + (if is_some (s.score u) then 0 else 1))
          × (t.events ≡ s.events))
        (store_score u new (s.score u) env s)
unfolding store_score load_protocol_stats
store_score-Stores u new env s = ground arith

finish_score-Stores :
    (u : Address) (env : Env) (s : Oracle) (tx : TxStats) (r : RepaymentRecord) (tally : VcTally)
    → Ensures (Stores u env s tx r tally) (finish_score u tx r tally env s)
unfolding finish_score load_protocol_stats
finish_score-Stores u env s tx r tally = elim (Option-cases s.config) [
  | inl e ↦ ground arith
  | inr (w, e) ↦
      let new = fresh_record env (s.score u) tx r tally w in
      simp (e, ok_or)
        (Ensures-bind (Stores u env s tx r tally) (store_score u new (s.score u))
          (λ _. emit (Event.score u new.score) >> pure new.score) env s
          (Ensures-map
            (λ _ t h. (
              w,
              e,
              refl,
              new,
              (refl, refl, refl, refl, refl, refl, refl, refl),
              h.0,
              h.1,
              ap (λ es. Event.score u new.score ∷ es) h.2,
            ))
            (store_score u new (s.score u) env s) (store_score-Stores u new env s)))
]

tally_credentials-is_gone :
    (client : IdentityClient) (u : Address) (oracle : Option Address) (env : Env) (s : Oracle)
    → Ensures
        (λ tally t. is_gone client u oracle ≡ not (is_some tally))
        (tally_credentials client u oracle env s)
unfolding tally_credentials
tally_credentials-is_gone client u none env s = refl
tally_credentials-is_gone client u (some oracle) env s =
    elim (Option-cases (client.get_vc_details oracle u)) [
      | inl e ↦ ground arith
      | inr (rs, e) ↦ ground arith
    ]

-- A successful computation returns the minimum and changes nothing exactly for a deactivated
-- subject. For any other one it returns the score of the stored statistics, the repayment history
-- and the tally of the credentials under the stored weights, and publishes it; there is a record of
-- that score, these inputs, this ledger, this time and the previous score: the scores then are as
-- before if the stored record has the same score, credential count, repayment rate and volume, and
-- otherwise differ in this record of the subject alone. The count of subjects goes up by one exactly
-- if the subject had no record.
pub compute_score-Writes :
    (client : IdentityClient) (u : Address) (env : Env) (s : Oracle)
    → Ensures (Writes client u env s) (compute_score client u env s)
compute_score-Writes client u env s =
    let oracle = s.identity_oracle_id in
    let gone = tally_credentials-is_gone client u oracle env s in
    compute_score-Ensures (Writes client u env s) client u env s
      (λ k. inl (ensured _ _ gone k, refl, refl))
      (λ r tally e k.
        Ensures-map (λ score t h. inr (ensured _ _ gone k, r, e, tally, k, h))
          (finish_score u (unwrap_or (s.tx_stats u) no_tx_stats) r tally env s)
          (finish_score-Stores u env s (unwrap_or (s.tx_stats u) no_tx_stats) r tally))

-- On a contract that is not paused, while a cooldown of at least one ledger runs from the ledger
-- of the stored score, a computation is refused with `ComputeCooldownActive`.
pub compute_score_cooldown :
    (client : IdentityClient) (u : Address) {r : ScoreRecord} {c : ℕ} (env : Env) (s : Oracle)
    → unwrap_or s.paused false ≡ false
    → s.score u ≡ some r
    → s.compute_cooldown_ledgers ≡ some c
    → 1 ≤ c
    → env.sequence < r.computed_at_ledger + c
    → compute_score client u env s ≡ err compute_cooldown_active
unfolding compute_score
compute_score_cooldown client u env s unpaused e c on within = ground arith
