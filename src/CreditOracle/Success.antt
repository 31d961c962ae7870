-- ===== src/CreditOracle/Success.antt =====
-- When `compute_score` succeeds, and with what.
use stellar_did_credit.Base.{
  Bool, Bool-cases, List, Option, Option-cases, arith, false, inl, inr, nat_eq, none, put, refl,
  some, true, u32_max, u64_max, unwrap_or, ℕ, ◌+◌, ◌<◌, ◌∷◌, ◌≡◌, ◌≤◌,
}
use stellar_did_credit.Host.{Address, Env, ensured, ok}
use stellar_did_credit.CreditOracle.Types.{
  IdentityClient, RepaymentRecord, ScoreRecord, ScoringWeights, TxStats,
}
use stellar_did_credit.CreditOracle.State.{Event, Oracle, load_protocol_stats, load_recency_config}
use stellar_did_credit.CreditOracle.Compute.{
  VcTally, compute_score, finish_if_active, finish_score, in_cooldown, is_unchanged, load_repayment,
  no_tx_stats, score_inputs, store_score, tally_credentials, tally_local,
}
use stellar_did_credit.Credential.{IdentityVcRecord}
use stellar_did_credit.CreditOracle.Tally.{answers, tally_identity_lem, vouched}
use stellar_did_credit.CreditOracle.Repayments.{HasLayoutV2, current}
use stellar_did_credit.CreditOracle.Scoring.{min_score}
use stellar_did_credit.CreditOracle.Writes.{Writes, compute_score-Writes, final_score, fresh_record}

store_score_succeeds :
    (u : Address) (new : ScoreRecord) (env : Env) (s : Oracle)
    → (load_protocol_stats s).total_subjects_scored < u64_max
    → (t : Oracle) × (store_score u new (s.score u) env s ≡ ok tt t)
unfolding store_score load_protocol_stats
store_score_succeeds u new env s room = elim (Bool-cases (is_unchanged (s.score u) new)) [
  | inl same ↦ (s, ground arith)
  | inr changed ↦ elim (Option-cases (s.score u)) [
    | inl e ↦
        let stats = load_protocol_stats s in
        (
          record s {
            protocol_stats =
                some (record stats { total_subjects_scored = stats.total_subjects_scored + 1 });
            score = put u new s.score;
          },
          ground arith,
        )
    | inr (prev, e) ↦ (record s { score = put u new s.score }, ground arith)
  ]
]

finish_score_succeeds :
    (u : Address) (tx : TxStats) (r : RepaymentRecord) (tally : VcTally) (env : Env) (s : Oracle)
    (w : ScoringWeights)
    → s.config ≡ some w
    → (load_protocol_stats s).total_subjects_scored < u64_max
    → (t : Oracle) × (finish_score u tx r tally env s ≡ ok (final_score tx r tally w) t)
unfolding finish_score
finish_score_succeeds u tx r tally env s w e room =
    let (t, stored) =
      store_score_succeeds u (fresh_record env (s.score u) tx r tally w) env s room in
    (record t { events = Event.score u (final_score tx r tally w) ∷ t.events }, ground arith)

-- The linked identity oracle answers every call that a computation makes, and does not vouch for
-- more credentials than a `u32` counts.
abbrev pub Responds : IdentityClient → Address → Option Address → Type 0
Responds client u none = Unit
Responds client u (some oracle) =
    (gone : Bool) × (client.is_deactivated oracle u ≡ some gone)
    × (rs : List IdentityVcRecord) × (client.get_vc_details oracle u ≡ some rs)
    × (answers client oracle u rs ≡ true)
    × (vouched client oracle u rs ≤ u32_max)

load_repayment_succeeds :
    (u : Address) (env : Env) (s : Oracle)
    → HasLayoutV2 s
    → (r : RepaymentRecord) × (load_repayment u env s ≡ ok r s)
unfolding load_repayment
load_repayment_succeeds u env s h =
    (current (s.repayment_record u), ground (arith, h.layout, h.records u))

tally_credentials_succeeds :
    (client : IdentityClient) (u : Address) (oracle : Option Address) (env : Env) (s : Oracle)
    → Responds client u oracle
    → (tally : Option VcTally) × (tally_credentials client u oracle env s ≡ ok tally s)
unfolding tally_credentials
tally_credentials_succeeds client u none env s h = (some (tally_local s u), refl)
tally_credentials_succeeds client u (some oracle) env s (true, gone, rs, listed, answered, few) =
    (none, rw gone refl)
tally_credentials_succeeds client u (some oracle) env s (false, gone, rs, listed, answered, few) =
    let (tally, t, done, facts) =
      tally_identity_lem client oracle u (load_recency_config s) rs env s answered few in
    (some tally, ground (arith, gone, listed, done, facts.0))

finish_if_active_succeeds :
    (u : Address) (tx : TxStats) (r : RepaymentRecord) (tally : Option VcTally) (env : Env)
    (s : Oracle) (w : ScoringWeights)
    → s.config ≡ some w
    → (load_protocol_stats s).total_subjects_scored < u64_max
    → (score : ℕ) × (t : Oracle) × (finish_if_active u tx r tally env s ≡ ok score t)
finish_if_active_succeeds u tx r none env s w e room = (min_score, s, refl)
finish_if_active_succeeds u tx r (some tally) env s w e room =
    let (t, done) = finish_score_succeeds u tx r tally env s w e room in
    (final_score tx r tally w, t, done)

-- On a contract that is not paused, with weights, repayment records of the current layout only and
-- room in the count of subjects, a computation for a subject with no cooldown running always
-- succeeds, if the identity oracle is not linked or answers the calls made of it: none of its checks
-- fails and nothing overflows. What it returns and leaves is the minimum and the old state exactly
-- for a deactivated subject, and otherwise the score and record of what is stored.
pub compute_score_succeeds :
    (client : IdentityClient) (u : Address) (env : Env) (s : Oracle) {w : ScoringWeights}
    → HasLayoutV2 s
    → s.config ≡ some w
    → (load_protocol_stats s).total_subjects_scored < u64_max
    → Responds client u s.identity_oracle_id
    → unwrap_or s.paused false ≡ false
    → in_cooldown (unwrap_or s.compute_cooldown_ledgers 0) env (s.score u) ≡ false
    → (score : ℕ) × (t : Oracle) × (compute_score client u env s ≡ ok score t)
      × Writes client u env s score t
unfolding compute_score score_inputs
compute_score_succeeds client u env s {w} layout e room responds unpaused cool =
    let tx = unwrap_or (s.tx_stats u) no_tx_stats in
    let (r, loaded) = load_repayment_succeeds u env s layout in
    let (tally, counted) =
      tally_credentials_succeeds client u s.identity_oracle_id env s responds in
    let (score, t, finished) = finish_if_active_succeeds u tx r tally env s w e room in
    let done : compute_score client u env s ≡ ok score t = ground arith in
    (score, t, done, ensured _ _ (compute_score-Writes client u env s) done)
