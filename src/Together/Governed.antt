-- ===== src/Together/Governed.antt =====
-- The governance contract (contracts/governance/src/lib.rs) as the administrator of the credit
-- oracle (contracts/credit-oracle/src/lib.rs): where the scoring weights come from.
use stellar_did_credit.Governance.Permanence.{Follows}
use stellar_did_credit.Governance.Outcomes.{Executes}
use stellar_did_credit.CreditOracle.Control.{IsEntitled, run-IsEntitled}
use stellar_did_credit.Together.Peers.{answer_of, peer_of}
use stellar_did_credit.Governance.Tallies.{IsTallied}
use stellar_did_credit.Governance.State.{
  Governance, GovernanceProposal, OracleCall, Peer, accept_admin_at, apply_weights_at,
  propose_weights_at,
}
use stellar_did_credit.Governance.Ballots.{cast_for}
use stellar_did_credit.Governance.Proposals.{get_proposal}
use mathlib.Core.Path.{subst}
use stellar_did_credit.Base.{
  List, Option, add_i128-parts, ap, arith, false, inl, inr, length, nat_eq, none, pos, put_same,
  refl, some, sym, true, ℕ, ◌+◌, ◌<◌, ◌∙◌, ◌∷◌, ◌≡◌, ◌≢◌, ◌≤ℤ◌, ◌⊎◌,
}
use stellar_did_credit.Host.{Address, Ensures, Ensures-imp, Env, ok}
use stellar_did_credit.CreditOracle.Types.{IdentityClient, ScoringWeights}
use stellar_did_credit.CreditOracle.State.{Oracle}
use stellar_did_credit.CreditOracle.Steps
use stellar_did_credit.CreditOracle.Frame.{access, run_keeps}
use stellar_did_credit.CreditOracle.Timelock.{IsLocked, run-IsLocked}
use stellar_did_credit.CreditOracle.Weights
use stellar_did_credit.CreditOracle.Admin
use stellar_did_credit.Governance.Steps.{Request, run}

-- The governance contract at `gov` is the administrator, and no other was proposed.
abbrev pub IsHeld : Address → Oracle → Type 0
IsHeld gov x = (x.admin ≡ some gov) × (x.pending_admin ≡ none)

-- What somebody else than the governance contract may do to the weights: apply the pending ones.
abbrev pub IsApplied : Oracle → Oracle → Type 0
IsApplied x y =
    ((y.config ≡ x.config) × (y.pending_weights ≡ x.pending_weights))
    ⊎ ((w : ScoringWeights) × (x.pending_weights ≡ some w)
        × (y.config ≡ some w)
        × (y.pending_weights ≡ none))

module _ (gov : Address) (client : IdentityClient) (env : Env) (x : Oracle)
    (foreign : env.authorized gov ≡ false) (held : IsHeld gov x) where
  -- A request that needs the administrator, or a proposed one.
  refused :
      (req : Steps.Request)
      → (IsEntitled env x req → ⊥)
      → Ensures (λ _. IsHeld gov) (Steps.run client req env x)
  refused req no_one =
      Ensures-imp (λ y k. absurd (no_one k)) (Steps.run client req env x)
        (run-IsEntitled client req env x)

  pub foreign-IsHeld :
      (req : Steps.Request) → Ensures (λ _. IsHeld gov) (Steps.run client req env x)
  foreign-IsHeld (Steps.initialize_with a) = refused (Steps.initialize_with a) (λ k. ground arith)
  foreign-IsHeld (Steps.propose a) = refused (Steps.propose a) (λ k. ground arith)
  foreign-IsHeld (Steps.accept a) = refused (Steps.accept a) (λ k. ground arith)
  foreign-IsHeld (Steps.upgrade_to a w) = refused (Steps.upgrade_to a w) (λ k. ground arith)
  foreign-IsHeld req =
      Ensures-imp (λ y k. ground (arith, k)) (Steps.run client req env x)
        (run_keeps client req env x access refl)

  pub foreign-IsApplied :
      (req : Steps.Request) → Ensures (λ _. IsApplied x) (Steps.run client req env x)
  foreign-IsApplied req =
      Ensures-imp apart (Steps.run client req env x) (run-IsLocked client req env x)
    where
      apart : (y : Oracle) → IsLocked env x y → IsApplied x y
      apart y (inl k) = inl (k.0, k.1)
      apart y (inr (inl k)) = absurd (ground arith)
      apart y (inr (inr (inl k))) = absurd (ground arith)
      apart y (inr (inr (inr k))) = inr (k.0, k.2, k.5, k.6)

-- The weights are those of an executed proposal that the votes carried.
abbrev pub IsCarried : Governance → ScoringWeights → Type 0
IsCarried s w =
    (id : ℕ) × (p : GovernanceProposal) × (get_proposal s id ≡ some p)
    × (p.executed ≡ true)
    × (p.proposed_weights ≡ w)
    × (cast_for id false s.events < cast_for id true s.events)
    × (p.quorum_required ≤ℤ pos (cast_for id true s.events + cast_for id false s.events))

-- One invocation of one of the two contracts. A request of the governance contract takes the oracle
-- along if it calls it; other requests of the oracle come from callers for whom the governance
-- contract cannot authorize.
pub data JointStep (at gov : Address) : Governance → Oracle → Governance → Oracle → Type 0 where
  governs :
      {s t : Governance} {x y : Oracle} (req : Request) (env : Env)
      → env.current_contract ≡ gov
      → run (peer_of at env x) req env s ≡ ok tt t
      → ((t.calls ≡ s.calls) × (y ≡ x))
        ⊎ ((c : OracleCall) × (t.calls ≡ c ∷ s.calls) × (answer_of at env x c ≡ ok tt y))
      → JointStep at gov s x t y
  foreign :
      {s : Governance} {x y : Oracle} (client : IdentityClient) (req : Steps.Request) (env : Env)
      → env.authorized gov ≡ false
      → Steps.run client req env x ≡ ok tt y
      → JointStep at gov s x s y

pub data JointReach (at gov : Address) (s : Governance) (x : Oracle)
    : Governance → Oracle → Type 0 where
  start : JointReach at gov s x s x
  step :
      {t u : Governance} {y z : Oracle}
      → JointReach at gov s x t y
      → JointStep at gov t y u z
      → JointReach at gov s x u z

-- The governance contract holds the oracle, and every weight that is pending or that replaced the
-- first configuration was carried.
pub record IsGovernedBy (gov : Address) (first : Option ScoringWeights) (s : Governance)
    (x : Oracle) : Type 0 where
  pub held : IsHeld gov x
  pub tallied : IsTallied s
  pub pending_carried : (w : ScoringWeights) → x.pending_weights ≡ some w → IsCarried s w
  pub config_carried :
      (x.config ≡ first) ⊎ ((w : ScoringWeights) × (x.config ≡ some w) × IsCarried s w)

pub IsCarried-later :
    (s t : Governance) (w : ScoringWeights)
    → IsTallied s
    → IsTallied t
    → ((id : ℕ) → Follows (get_proposal s id) (get_proposal t id))
    → IsCarried s w
    → IsCarried t w
unfolding get_proposal
IsCarried-later s t w h k f (id, p, e, x, u, m, q) =
    let after = subst (λ o. Follows o (t.proposal id)) e (f id) in later (t.proposal id) refl after
  where
    later : (o : Option GovernanceProposal) → o ≡ t.proposal id → Follows (some p) o → IsCarried t w
    later none g a = absurd a
    later (some r) g a =
        let same : r ≡ p = a.8 (ground arith) in
        let there : t.proposal id ≡ some p = sym g ∙ ap some same in
        (
          id,
          p,
          there,
          x,
          u,
          ground (
            arith,
            h.tallied_for id p e,
            h.tallied_against id p e,
            k.tallied_for id p there,
            k.tallied_against id p there,
          ),
          ground (
            arith,
            h.tallied_for id p e,
            h.tallied_against id p e,
            k.tallied_for id p there,
            k.tallied_against id p there,
          ),
        )

pub Executes-IsCarried :
    (peer : Peer) (env : Env) (id : ℕ) (s t : Governance) (c : Executes peer env id s t)
    → IsTallied s
    → IsCarried t c.0.proposed_weights
unfolding get_proposal
Executes-IsCarried peer env id s t c h =
    let yes_votes = h.tallied_for id c.0 c.1 in
    let no_votes = h.tallied_against id c.0 c.1 in
    (
      id,
      record c.0 { executed = true },
      ground (arith, put_same id (record c.0 { executed = true }) s.proposal),
      refl,
      refl,
      ground (arith, yes_votes, no_votes),
      ground (arith, yes_votes, no_votes, add_i128-parts c.0.votes_for c.0.votes_against c.8),
    )

-- What a call of the governance contract leaves in the oracle.
abbrev pub Answered : Address → OracleCall → Oracle → Oracle → Type 0
Answered gov (propose_weights_at a w) x y =
    IsHeld gov y × (y.config ≡ x.config) × (y.pending_weights ≡ some w)
Answered gov (apply_weights_at a) x y =
    IsHeld gov y
    × (w : ScoringWeights) × (x.pending_weights ≡ some w)
    × (y.config ≡ some w)
    × (y.pending_weights ≡ none)
Answered gov (accept_admin_at a b) x y = ⊥

pub answer_of-Answered :
    (at gov : Address) (env : Env) (x : Oracle) (c : OracleCall)
    → IsHeld gov x
    → Ensures (λ _. Answered gov c x) (answer_of at env x c)
answer_of-Answered at gov env x (propose_weights_at a w) h =
    unfold Weights.propose_weights in ground arith
answer_of-Answered at gov env x (apply_weights_at a) h =
    unfold Weights.apply_weights in ground arith
answer_of-Answered at gov env x (accept_admin_at a b) h = unfold Admin.accept_admin in ground arith

pub cons-ne_self {ℓ} : {A : Type ℓ} (a : A) (xs : List A) → a ∷ xs ≢ xs
cons-ne_self a xs e = absurd (omega (arith, ap length e))

pub cons-injective {ℓ} : {A : Type ℓ} {a b : A} {xs : List A} → a ∷ xs ≡ b ∷ xs → a ≡ b
cons-injective e = ground arith
