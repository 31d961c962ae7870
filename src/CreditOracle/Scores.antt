-- ===== src/CreditOracle/Scores.antt =====
-- `compute_score`: range, cooldown, and what it writes.
use stellar_did_credit.CreditOracle.Scoring.Bounds.{compute_score_pure_bounds}
use stellar_did_credit.Base.{
  Option, Option-cases, ap, arith, inl, inr, min, none, some, unwrap_or, ℕ, ◌∙◌, ◌≡◌, ◌≤◌,
}
use stellar_did_credit.Host.{
  Address, Ensures, Ensures-bind, Ensures-eq, Ensures-map, Env, ensured, gets, ok, ◌>>=◌, ◌>>◌,
}
use stellar_did_credit.CreditOracle.Types.{IdentityClient, RepaymentRecord, TxStats}
use stellar_did_credit.CreditOracle.State.{Oracle, ensure_not_paused}
use stellar_did_credit.CreditOracle.Scoring.{max_score, min_score}
use stellar_did_credit.CreditOracle.Compute.{
  VcTally, check_compute_cooldown, compute_score, finish_if_active, finish_score, load_repayment,
  no_tx_stats, score_inputs, store_score, tally_credentials,
}
use stellar_did_credit.CreditOracle.Frame.{load_repayment_frame, tally_credentials_frame}

ensure_not_paused_frame :
    (env : Env) (s : Oracle) → Ensures (λ _ t. t ≡ s) (ensure_not_paused env s)
unfolding ensure_not_paused
ensure_not_paused_frame env s = ground arith

check_compute_cooldown_frame :
    (u : Address) (env : Env) (s : Oracle) → Ensures (λ _ t. t ≡ s) (check_compute_cooldown u env s)
unfolding check_compute_cooldown
check_compute_cooldown_frame u env s = ground arith

finish_score_bounds :
    (u : Address) (env : Env) (s : Oracle) (tx : TxStats) (r : RepaymentRecord) (tally : VcTally)
    → Ensures
        (λ score t. (min_score ≤ score) × (score ≤ max_score))
        (finish_score u tx r tally env s)
unfolding finish_score store_score
finish_score_bounds u env s tx r tally = elim (Option-cases s.config) [
  | inl e ↦ ground arith
  | inr (w, e) ↦ ground (
    arith,
    compute_score_pure_bounds (min tally.vc_points 100) tx.volume_30d tx.avg_counterparties
        r.on_time_count r.total_count r.total_repaid w.vc_weight w.tx_weight w.repayment_weight,
  )
]

-- What holds of the last part, and of the early return, holds of the whole; either may use what was
-- read before.
module _ {ℓ} (P : ℕ → Oracle → Type ℓ) (client : IdentityClient) (u : Address) (env : Env)
    (s : Oracle)
    (early : tally_credentials client u s.identity_oracle_id env s ≡ ok none s → P min_score s)
    (late : (r : RepaymentRecord) (tally : VcTally)
      → load_repayment u env s ≡ ok r s
      → tally_credentials client u s.identity_oracle_id env s ≡ ok (some tally) s
      → Ensures P (finish_score u (unwrap_or (s.tx_stats u) no_tx_stats) r tally env s)) where
  finish_if_active-Ensures :
      (r : RepaymentRecord) (tally : Option VcTally)
      → load_repayment u env s ≡ ok r s
      → tally_credentials client u s.identity_oracle_id env s ≡ ok tally s
      → Ensures P (finish_if_active u (unwrap_or (s.tx_stats u) no_tx_stats) r tally env s)
  finish_if_active-Ensures r none e k = early k
  finish_if_active-Ensures r (some tally) e k = late r tally e k

  score_inputs-Ensures : Ensures P (score_inputs client u env s)
  unfolding score_inputs
  score_inputs-Ensures =
      let tx = unwrap_or (s.tx_stats u) no_tx_stats in
      let oracle = s.identity_oracle_id in
      Ensures-bind P (load_repayment u)
        (λ r. do
          oracle ← gets (λ s. s.identity_oracle_id)
          tally ← tally_credentials client u oracle
          finish_if_active u tx r tally)
        env s
        (Ensures-eq (load_repayment u env s) (λ r t e.
          let same : t ≡ s = ensured (λ _ t. t ≡ s) _ (load_repayment_frame u env s) e in
          let read : load_repayment u env s ≡ ok r s = e ∙ ap (λ x. ok r x) same in
          rw same (
            Ensures-bind P (tally_credentials client u oracle) (finish_if_active u tx r) env s (
              Ensures-eq (tally_credentials client u oracle env s) (λ tally t k.
                let same : t ≡ s =
                  ensured (λ _ t. t ≡ s) _ (tally_credentials_frame client u oracle env s) k in
                rw same (finish_if_active-Ensures r tally read (k ∙ ap (λ x. ok tally x) same)))))))

  pub compute_score-Ensures : Ensures P (compute_score client u env s)
  unfolding compute_score
  compute_score-Ensures =
      Ensures-bind P ensure_not_paused (λ _. check_compute_cooldown u >> score_inputs client u) env
        s
        (Ensures-map
          (λ _ t e. rw e (
            Ensures-bind P (check_compute_cooldown u) (λ _. score_inputs client u) env s
              (Ensures-map (λ _ t e. rw e score_inputs-Ensures) (check_compute_cooldown u env s)
                (check_compute_cooldown_frame u env s))))
          (ensure_not_paused env s) (ensure_not_paused_frame env s))

-- Every score that `compute_score` returns lies between 300 and 850, whatever the identity oracle
-- answers.
pub compute_score_bounds :
    (client : IdentityClient) (u : Address) (env : Env) (s : Oracle)
    → Ensures (λ score t. (min_score ≤ score) × (score ≤ max_score)) (compute_score client u env s)
compute_score_bounds client u env s =
    compute_score-Ensures (λ score t. (min_score ≤ score) × (score ≤ max_score)) client u env s
      (λ _. omega arith)
      (λ r tally _ _. finish_score_bounds u env s (unwrap_or (s.tx_stats u) no_tx_stats) r tally)
