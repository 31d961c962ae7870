-- ===== src/CreditOracle/Frame.antt =====
-- Which parts of the state each entry point of contracts/credit-oracle/src/lib.rs may write.
use stellar_did_credit.Credential.{IdentityVcRecord}
use stellar_did_credit.CreditOracle.Weights.{apply_weights, propose_weights}
use stellar_did_credit.CreditOracle.Registration.{
  deregister_feeder, deregister_lender, register_feeder, register_lender,
}
use stellar_did_credit.CreditOracle.Inputs.{
  anchor_vc, migrate, migrate_each, record_repayment, set_vc_count, update_tx_stats,
}
use stellar_did_credit.CreditOracle.Disputes.{flag_score_input, resolve_dispute}
use stellar_did_credit.CreditOracle.Compute.{
  VcTally, compute_score, finish_score, load_repayment, no_tally, score_inputs, store_score,
  tally_credentials, tally_identity, tally_one,
}
use stellar_did_credit.Base.{
  Bool, List, Option, Option-cases, [], arith, false, inl, inr, none, refl, some, true, ◌∷◌, ◌≡◌,
  ◌⊎◌,
}
use stellar_did_credit.Host.{Address, Ensures, Ensures-bind, Ensures-imp, Ensures-map, Env}
use stellar_did_credit.CreditOracle.Types.{
  IdentityClient, RecencyDecayConfig, RepaymentRecord, RepaymentRecordV1, TxStats,
}
use stellar_did_credit.CreditOracle.State.{
  Oracle, StoredRepayment, layout_v1, layout_v2, load_recency_config,
}
use stellar_did_credit.CreditOracle.Admin.{
  accept_admin, initialize, pause, propose_new_admin, set_compute_cooldown_ledgers,
  set_identity_oracle, set_recency_decay, set_vc_type_weight, unpause, upgrade,
}
use stellar_did_credit.CreditOracle.Steps.{
  Request, accept, add_feeder, add_lender, anchor, apply_config, cache_count, compute, drop_feeder,
  drop_lender, flag, initialize_with, migrate_all, pause_all, propose, propose_config, repay,
  resolve, run, set_cooldown, set_decay, set_oracle, set_type_weight, unpause_all, update_stats,
  upgrade_to,
}

pub data Part : Type 0 where
  access switch settings lock feeders lenders inputs repayments version scores disputes : Part

-- The part of `t` is that of `s`.
abbrev pub Unchanged : Part → Oracle → Oracle → Type 0
Unchanged access s t =
    (t.admin ≡ s.admin)
    × (t.pending_admin ≡ s.pending_admin)
    × (t.governance_id ≡ s.governance_id)
    × (t.wasm ≡ s.wasm)
Unchanged switch s t = t.paused ≡ s.paused
Unchanged settings s t =
    (t.identity_oracle_id ≡ s.identity_oracle_id)
    × (t.compute_cooldown_ledgers ≡ s.compute_cooldown_ledgers)
    × (t.recency_decay_enabled ≡ s.recency_decay_enabled)
    × (t.decay_bps_per_day ≡ s.decay_bps_per_day)
    × (t.min_recency_bps ≡ s.min_recency_bps)
    × (t.vc_weight ≡ s.vc_weight)
Unchanged lock s t =
    (t.config ≡ s.config)
    × (t.pending_weights ≡ s.pending_weights)
    × (t.pending_weights_effective_ledger ≡ s.pending_weights_effective_ledger)
Unchanged feeders s t = (t.feeders_index ≡ s.feeders_index) × (t.trusted_feeder ≡ s.trusted_feeder)
Unchanged lenders s t = (t.lenders_index ≡ s.lenders_index) × (t.trusted_lender ≡ s.trusted_lender)
Unchanged inputs s t =
    (t.tx_stats ≡ s.tx_stats) × (t.vc_count ≡ s.vc_count) × (t.vc_list ≡ s.vc_list)
Unchanged repayments s t = t.repayment_record ≡ s.repayment_record
Unchanged version s t = t.storage_version ≡ s.storage_version
Unchanged scores s t = t.score ≡ s.score
Unchanged disputes s t = (t.dispute ≡ s.dispute) × (t.dispute_index ≡ s.dispute_index)

-- The parts that a request may write.
abbrev pub touches : Request → Part → Bool
touches (initialize_with a) access = true
touches (initialize_with a) settings = true
touches (initialize_with a) lock = true
touches (initialize_with a) version = true
touches (set_cooldown a n) settings = true
touches (pause_all a) switch = true
touches (unpause_all a) switch = true
touches (set_type_weight a t w) settings = true
touches (set_decay a on rate floor) settings = true
touches (set_oracle a o) settings = true
touches (propose a) access = true
touches (accept a) access = true
touches (upgrade_to a w) access = true
touches (add_feeder a f) feeders = true
touches (drop_feeder a f) feeders = true
touches (add_lender a l) lenders = true
touches (drop_lender a l) lenders = true
touches (update_stats f u stats) inputs = true
touches (repay l u amount on_time) repayments = true
touches (migrate_all us) repayments = true
touches (migrate_all us) version = true
touches (cache_count f u n) inputs = true
touches (anchor f u h t) inputs = true
touches (compute u) scores = true
touches (propose_config w) lock = true
touches apply_config lock = true
touches (flag u k reason) disputes = true
touches (resolve u k accepted) disputes = true
touches req part = false

abbrev Frames : Request → Oracle → Oracle → Type 0
Frames req s t = (p : Part) → touches req p ≡ false → Unchanged p s t

pub repayment-cases :
    (o : Option StoredRepayment)
    → (o ≡ none)
      ⊎ ((r : RepaymentRecordV1) × (o ≡ some (layout_v1 r)))
      ⊎ ((r : RepaymentRecord) × (o ≡ some (layout_v2 r)))
repayment-cases none = inl refl
repayment-cases (some (layout_v1 r)) = inr (inl (r, refl))
repayment-cases (some (layout_v2 r)) = inr (inr (r, refl))

-- The loop of `migrate` writes repayment records only.
pub migrate_each_frame :
    (us : List Address) (env : Env) (s : Oracle)
    → Ensures
        (λ _ t. t ≡ record s { repayment_record = t.repayment_record })
        (migrate_each us env s)
unfolding migrate_each
migrate_each_frame [] env s = refl
migrate_each_frame (u ∷ us) env s = elim (repayment-cases (s.repayment_record u)) [
  | inl e ↦ rw e (migrate_each_frame us env s)
  | inr (inl (r, e)) ↦ rw e (migrate_each_frame us env _)
  | inr (inr (r, e)) ↦ rw e tt
]

-- Counting credentials writes nothing.
tally_one_frame :
    (client : IdentityClient) (oracle subject : Address) (cfg : RecencyDecayConfig)
    (r : IdentityVcRecord) (acc : VcTally) (env : Env) (s : Oracle)
    → Ensures (λ _ t. t ≡ s) (tally_one client oracle subject cfg r acc env s)
unfolding tally_one
tally_one_frame client oracle subject cfg r acc env s = ground arith

pub tally_identity_frame :
    (client : IdentityClient) (oracle subject : Address) (cfg : RecencyDecayConfig)
    (rs : List IdentityVcRecord) (acc : VcTally) (env : Env) (s : Oracle)
    → Ensures (λ _ t. t ≡ s) (tally_identity client oracle subject cfg rs acc env s)
unfolding tally_identity
tally_identity_frame client oracle subject cfg [] acc env s = refl
tally_identity_frame client oracle subject cfg (r ∷ rs) acc env s =
    Ensures-bind (λ _ t. t ≡ s) (tally_one client oracle subject cfg r acc)
      (tally_identity client oracle subject cfg rs) env s
      (Ensures-map
        (λ tally t e. rw e (tally_identity_frame client oracle subject cfg rs tally env s))
        (tally_one client oracle subject cfg r acc env s)
        (tally_one_frame client oracle subject cfg r acc env s))

pub load_repayment_frame :
    (u : Address) (env : Env) (s : Oracle) → Ensures (λ _ t. t ≡ s) (load_repayment u env s)
unfolding load_repayment
load_repayment_frame u env s = ground arith

pub tally_credentials_frame :
    (client : IdentityClient) (u : Address) (oracle : Option Address) (env : Env) (s : Oracle)
    → Ensures (λ _ t. t ≡ s) (tally_credentials client u oracle env s)
unfolding tally_credentials
tally_credentials_frame client u none env s = refl
tally_credentials_frame client u (some oracle) env s =
    elim (Option-cases (client.get_vc_details oracle u)) [
      | inl e ↦ ground arith
      | inr (rs, e) ↦
          ground
            (arith, tally_identity_frame client oracle u (load_recency_config s) rs no_tally env s)
    ]

-- `t` differs from `s` at most in the scores, the counters and the events.
abbrev ScoreFrame : Oracle → Oracle → Type 0
ScoreFrame s t =
    t ≡ record s { score = t.score; protocol_stats = t.protocol_stats; events = t.events }

finish_score_frame :
    (u : Address) (tx : TxStats) (r : RepaymentRecord) (tally : VcTally) (env : Env) (s : Oracle)
    → Ensures (λ _. ScoreFrame s) (finish_score u tx r tally env s)
unfolding finish_score store_score
finish_score_frame u tx r tally env s = ground arith

compute_score_frame :
    (client : IdentityClient) (u : Address) (env : Env) (s : Oracle)
    → Ensures (λ _. ScoreFrame s) (compute_score client u env s)
unfolding compute_score score_inputs
compute_score_frame client u env s =
    grind (arith, load_repayment_frame, tally_credentials_frame, finish_score_frame)

pub run-Unchanged :
    (client : IdentityClient) (req : Request) (env : Env) (s : Oracle)
    → Ensures (λ _. Frames req s) (run client req env s)
unfolding run
run-Unchanged client (initialize_with a) env s = unfold initialize in ground arith
run-Unchanged client (propose_config w) env s = unfold propose_weights in ground arith
run-Unchanged client apply_config env s = unfold apply_weights in ground arith
run-Unchanged client (set_cooldown a n) env s = unfold set_compute_cooldown_ledgers in ground arith
run-Unchanged client (pause_all a) env s = unfold pause in ground arith
run-Unchanged client (unpause_all a) env s = unfold unpause in ground arith
run-Unchanged client (set_type_weight a t w) env s = unfold set_vc_type_weight in ground arith
run-Unchanged client (set_decay a on rate floor) env s = unfold set_recency_decay in ground arith
run-Unchanged client (set_oracle a o) env s = unfold set_identity_oracle in ground arith
run-Unchanged client (propose a) env s = unfold propose_new_admin in ground arith
run-Unchanged client (accept a) env s = unfold accept_admin in ground arith
run-Unchanged client (upgrade_to a w) env s = unfold upgrade in ground arith
run-Unchanged client (add_feeder a f) env s = unfold register_feeder in ground arith
run-Unchanged client (drop_feeder a f) env s = unfold deregister_feeder in ground arith
run-Unchanged client (add_lender a l) env s = unfold register_lender in ground arith
run-Unchanged client (drop_lender a l) env s = unfold deregister_lender in ground arith
run-Unchanged client (update_stats f u stats) env s = unfold update_tx_stats in ground arith
run-Unchanged client (repay l u amount on_time) env s = unfold record_repayment in ground arith
run-Unchanged client (migrate_all us) env s =
    unfold migrate in ground (arith, migrate_each_frame us env s)
run-Unchanged client (cache_count f u n) env s = unfold set_vc_count in ground arith
run-Unchanged client (anchor f u h t) env s = unfold anchor_vc in ground arith
run-Unchanged client (compute u) env s = ground (arith, compute_score_frame client u env s)
run-Unchanged client (flag u k reason) env s = unfold flag_score_input in ground arith
run-Unchanged client (resolve u k accepted) env s = unfold resolve_dispute in ground arith

-- A successful request leaves every part of the state as it is that is not listed for it.
pub run_keeps :
    (client : IdentityClient) (req : Request) (env : Env) (s : Oracle) (p : Part)
    → touches req p ≡ false
    → Ensures (λ _. Unchanged p s) (run client req env s)
run_keeps client req env s p untouched =
    Ensures-imp (λ t frame. frame p untouched) (run client req env s)
      (run-Unchanged client req env s)
