-- ===== src/Together/Voted.antt =====
-- While the governance contract is the administrator of the credit oracle, the scoring weights are
-- voted on.
use stellar_did_credit.Governance.Permanence.{Follows, Follows-refl, Advances-Follows}
use mathlib.Core.Path.{subst}
use stellar_did_credit.Base.{Option, ap, arith, inl, inr, refl, some, sym, ℕ, ◌∙◌, ◌∷◌, ◌≡◌, ◌⊎◌}
use stellar_did_credit.Host.{Address, Env, ensured, ok}
use stellar_did_credit.CreditOracle.Types.{ScoringWeights}
use stellar_did_credit.CreditOracle.State.{Oracle}
use stellar_did_credit.CreditOracle.Steps
use stellar_did_credit.Governance.State.{
  Governance, OracleCall, accept_admin_at, apply_weights_at, propose_weights_at,
}
use stellar_did_credit.Governance.Steps.{run}
use stellar_did_credit.Governance.Tallies.{Effect-IsTallied, IsTallied}
use stellar_did_credit.Governance.Outcomes.{run-Effect}
use stellar_did_credit.Governance.Lifecycle.{run-Advances}
use stellar_did_credit.Governance.Proposals.{get_proposal}
use stellar_did_credit.Together.Peers.{
  Calls, accepts, answer_of, applies, peer_of, proposes, run-Calls, silent,
}
use stellar_did_credit.Together.Governed.{
  Answered, Executes-IsCarried, IsApplied, IsCarried, IsCarried-later, IsGovernedBy, IsHeld,
  JointReach, JointStep, answer_of-Answered, cons-injective, cons-ne_self, foreign,
  foreign-IsApplied, foreign-IsHeld, governs, start, step,
}

module _ (at gov : Address) (first : Option ScoringWeights) (s t : Governance) (x y : Oracle)
    (tallied : IsTallied t) (follows : (id : ℕ) → Follows (get_proposal s id) (get_proposal t id))
    (h : IsGovernedBy gov first s x) where
  carried : (w : ScoringWeights) → IsCarried s w → IsCarried t w
  carried w k = IsCarried-later s t w h.tallied tallied follows k

  config_kept :
      y.config ≡ x.config
      → (y.config ≡ first) ⊎ ((w : ScoringWeights) × (y.config ≡ some w) × IsCarried t w)
  config_kept e = kept h.config_carried
    where
      kept :
          (x.config ≡ first) ⊎ ((w : ScoringWeights) × (x.config ≡ some w) × IsCarried s w)
          → (y.config ≡ first) ⊎ ((w : ScoringWeights) × (y.config ≡ some w) × IsCarried t w)
      kept (inl k) = inl (e ∙ k)
      kept (inr (w, k, c)) = inr (w, e ∙ k, carried w c)

  applied-IsGovernedBy : IsHeld gov y → IsApplied x y → IsGovernedBy gov first t y
  applied-IsGovernedBy held (inl (c, p)) = record {
    held = held;
    tallied = tallied;
    pending_carried = λ w e. carried w (h.pending_carried w (sym p ∙ e));
    config_carried = config_kept c;
  }
  applied-IsGovernedBy held (inr (w, p, c, n)) = record {
    held = held;
    tallied = tallied;
    pending_carried = λ v e. absurd (ground arith);
    config_carried = inr (w, c, carried w (h.pending_carried w p));
  }

  proposed-IsGovernedBy :
      (w : ScoringWeights)
      → IsHeld gov y
      → y.config ≡ x.config
      → y.pending_weights ≡ some w
      → IsCarried t w
      → IsGovernedBy gov first t y
  proposed-IsGovernedBy w held c p k = record {
    held = held;
    tallied = tallied;
    pending_carried = λ v e. subst (IsCarried t) (ground arith) k;
    config_carried = config_kept c;
  }

  -- A request of the governance contract.
  governs-IsGovernedBy :
      (env : Env)
      → env.current_contract ≡ gov
      → Calls (peer_of at env x) env s t
      → ((t.calls ≡ s.calls) × (y ≡ x))
        ⊎ ((c : OracleCall) × (t.calls ≡ c ∷ s.calls) × (answer_of at env x c ≡ ok tt y))
      → IsGovernedBy gov first t y
  governs-IsGovernedBy env self calls (inl (same, e)) =
      applied-IsGovernedBy (rw e h.held)
        (inl (ap (λ (o : Oracle). o.config) e, ap (λ (o : Oracle). o.pending_weights) e))
  governs-IsGovernedBy env self (silent same) (inr (c, e, a)) =
      absurd (cons-ne_self c s.calls (sym e ∙ same))
  governs-IsGovernedBy env self (proposes id ex) (inr (c, e, a)) =
      let which : propose_weights_at ex.10 ex.0.proposed_weights ≡ c =
        cons-injective (sym (ap (λ (g : Governance). g.calls) ex.13) ∙ e) in
      let k : Answered gov (propose_weights_at ex.10 ex.0.proposed_weights) x y =
        ensured (λ _. Answered gov (propose_weights_at ex.10 ex.0.proposed_weights) x)
          (answer_of at env x (propose_weights_at ex.10 ex.0.proposed_weights))
          (answer_of-Answered at gov env x (propose_weights_at ex.10 ex.0.proposed_weights) h.held)
          (ap (answer_of at env x) which ∙ a) in
      proposed-IsGovernedBy ex.0.proposed_weights k.0 k.1 k.2
        (Executes-IsCarried (peer_of at env x) env id s t ex h.tallied)
  governs-IsGovernedBy env self (applies o f r) (inr (c, e, a)) =
      let which : apply_weights_at o ≡ c = cons-injective (sym f ∙ e) in
      let k : Answered gov (apply_weights_at o) x y =
        ensured (λ _. Answered gov (apply_weights_at o) x) (answer_of at env x (apply_weights_at o))
          (answer_of-Answered at gov env x (apply_weights_at o) h.held)
          (ap (answer_of at env x) which ∙ a) in
      applied-IsGovernedBy k.0 (inr (k.1, k.2, k.3, k.4))
  governs-IsGovernedBy env self (accepts o f r) (inr (c, e, a)) =
      let which : accept_admin_at o env.current_contract ≡ c = cons-injective (sym f ∙ e) in
      absurd (
        ensured (λ _ _. ⊥) (answer_of at env x (accept_admin_at o env.current_contract))
          (answer_of-Answered at gov env x (accept_admin_at o env.current_contract) h.held)
          (ap (answer_of at env x) which ∙ a))

JointStep-IsGovernedBy :
    (at gov : Address) (first : Option ScoringWeights) (s t : Governance) (x y : Oracle)
    → JointStep at gov s x t y
    → IsGovernedBy gov first s x
    → IsGovernedBy gov first t y
unfolding get_proposal
JointStep-IsGovernedBy at gov first s t x y (governs req env self e calls) h =
    let peer = peer_of at env x in
    let tallied =
      Effect-IsTallied peer env s t (ensured _ (run peer req env s) (run-Effect peer req env s) e)
        h.tallied in
    governs-IsGovernedBy at gov first s t x y tallied
      (λ id.
        Advances-Follows peer env s id (s.proposal id) (t.proposal id) h.tallied refl
          (ensured _ (run peer req env s) (run-Advances peer req env s) e id))
      h env self (ensured _ (run peer req env s) (run-Calls peer req env s) e) calls
JointStep-IsGovernedBy at gov first s t x y (foreign client req env no_auth e) h =
    applied-IsGovernedBy at gov first s s x y h.tallied (λ id. Follows-refl (s.proposal id)) h
      (ensured (λ _. IsHeld gov) (Steps.run client req env x)
        (foreign-IsHeld gov client env x no_auth h.held req) e)
      (ensured (λ _. IsApplied x) (Steps.run client req env x)
        (foreign-IsApplied gov client env x no_auth h.held req) e)

-- From a state in which the governance contract at `gov` is the administrator of the credit
-- oracle, with nobody proposed as another, its tallies follow its log, and the pending weights
-- were carried, no sequence of governance requests, and of oracle requests that `gov` did not
-- authorize, ends this: `gov` stays the administrator, and the configuration is the first one or
-- the weights of an executed proposal with more logged votes for it than against it and with its
-- quorum, as are the pending weights.
pub JointReach-IsGovernedBy :
    (at gov : Address) (first : Option ScoringWeights) {s : Governance} {x : Oracle}
    {t : Governance} {y : Oracle}
    → JointReach at gov s x t y
    → IsGovernedBy gov first s x
    → IsGovernedBy gov first t y
JointReach-IsGovernedBy at gov first start h = h
JointReach-IsGovernedBy at gov first {t = u} {y = z} (step {t = t} {y = y} r st) h =
    JointStep-IsGovernedBy at gov first t u y z st (JointReach-IsGovernedBy at gov first r h)
