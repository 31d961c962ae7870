-- ===== src/Governance/TallySteps.antt =====
-- The tallies of the proposals against the log of votes, when a proposal is made and when a vote is cast.
use stellar_did_credit.Base.{
  Bool, add_i128-parts, arith, checked_add_i128, false, is_some, leb_ℤ, none, pos, pos_of_parts,
  pos_part, some, true, unwrap_or, ℕ, ℤ, ◌+◌, ◌∙◌, ◌≡◌, ◌≤◌,
}
use stellar_did_credit.Host.{Address, Env}
use stellar_did_credit.CreditOracle.Types.{ScoringWeights}
use stellar_did_credit.Governance.State.{Governance, GovernanceProposal, first_proposal_id}
use stellar_did_credit.Governance.Effects.{Casts, Creates, book}
use stellar_did_credit.Governance.Ballots.{SameVotes, cast_by, cast_for}

abbrev pub next_id : Governance → ℕ
next_id s = unwrap_or s.next_proposal_id first_proposal_id

abbrev pub used_weight : Governance → ℕ → Address → ℤ
used_weight s id u = unwrap_or (s.vote_weight_used (id, u)) (pos 0)

-- No proposal has the number, and nobody voted on it.
abbrev pub IsUnborn : Governance → ℕ → Type 0
IsUnborn s id =
    (s.proposal id ≡ none)
    × ((side : Bool) → cast_for id side s.events ≡ 0)
    × ((u : Address) → (cast_by id u s.events ≡ 0) × (used_weight s id u ≡ pos 0))

-- Numbers from the counter on are free; the tallies of a proposal are the logged votes for and
-- against it; the weight that a voter used is the logged weight, until the proposal was executed.
pub record IsTallied (s : Governance) : Type 0 where
  pub started : is_some s.admin ≡ true
  pub unborn : (id : ℕ) → next_id s ≤ id → IsUnborn s id
  pub tallied_for :
      (id : ℕ) (p : GovernanceProposal)
      → s.proposal id ≡ some p
      → p.votes_for ≡ pos (cast_for id true s.events)
  pub tallied_against :
      (id : ℕ) (p : GovernanceProposal)
      → s.proposal id ≡ some p
      → p.votes_against ≡ pos (cast_for id false s.events)
  pub tallied_by :
      (id : ℕ) (u : Address) (p : GovernanceProposal)
      → s.proposal id ≡ some p
      → p.executed ≡ false
      → used_weight s id u ≡ pos (cast_by id u s.events)

pub IsTallied-same :
    (s t : Governance) → book t ≡ book s → SameVotes s t → IsTallied s → IsTallied t
IsTallied-same s t b v h = record {
  started = ground (arith, h.started);
  unborn = λ id le.
      let g = h.unborn id (ground arith) in
      (
        ground arith,
        λ side. (v id).0 side ∙ g.1 side,
        λ u. ((v id).1 u ∙ (g.2 u).0, ground (arith, g.2 u)),
      );
  tallied_for = λ id p e. ground (arith, h.tallied_for id p, (v id).0 true);
  tallied_against = λ id p e. ground (arith, h.tallied_against id p, (v id).0 false);
  tallied_by = λ id u p e x. ground (arith, h.tallied_by id u p, (v id).1 u);
}

pub Creates-IsTallied :
    (env : Env) (a : Address) (w : ScoringWeights) (period delay id : ℕ) (s t : Governance)
    → Creates env a w period delay id s t
    → IsTallied s
    → IsTallied t
Creates-IsTallied env a w period delay id s t c h =
    let g = h.unborn id (ground arith) in
    record {
      started = ground (arith, h.started);
      unborn = λ j le.
          let f = h.unborn j (ground arith) in
          (ground (arith, f.0), λ side. ground (arith, f.1 side), λ u. ground (arith, f.2 u));
      tallied_for = λ j p e. ground (arith, h.tallied_for j p, g.1 true);
      tallied_against = λ j p e. ground (arith, h.tallied_against j p, g.1 false);
      tallied_by = λ j u p e x. ground (arith, h.tallied_by j u p, g.2 u);
    }

-- Adding a vote to a count that is no less than zero.
sum-pos :
    (k : ℕ) (a w c : ℤ)
    → a ≡ pos k
    → leb_ℤ w (pos 0) ≡ false
    → checked_add_i128 a w ≡ some c
    → c ≡ pos (pos_part w + k)
sum-pos k a w c e q f = pos_of_parts c (pos_part w + k) (ground (arith, add_i128-parts a w f))

module _ (env : Env) (v : Address) (id : ℕ) (w : ℤ) (s t : Governance) (h : IsTallied s) where
  Casts-IsUnborn : (for : Bool) → Casts env v id for w s t → (j : ℕ) → next_id t ≤ j → IsUnborn t j
  Casts-IsUnborn for c j le =
      let g = h.unborn j (ground arith) in
      let other : (j ≡ id) → ⊥ = λ e. ground arith in
      (ground (arith, g.0, other), λ side. ground (arith, g.1 side), λ u. ground (arith, g.2 u))

  Casts-tallied_by :
      (for : Bool)
      → Casts env v id for w s t
      → (j : ℕ) (u : Address) (p : GovernanceProposal) → t.proposal j ≡ some p
      → p.executed ≡ false
      → used_weight t j u ≡ pos (cast_by j u t.events)
  Casts-tallied_by for c j u p e x = ground (
    arith,
    sum-pos (cast_by id v s.events) (used_weight s id v) w c.12 (h.tallied_by id v c.0 c.1 c.2) c.10
        c.13,
    h.tallied_by j u p,
    h.tallied_by j u c.0,
  )

  Casts-tallied_for :
      (for : Bool)
      → Casts env v id for w s t
      → (j : ℕ) (p : GovernanceProposal) → t.proposal j ≡ some p
      → p.votes_for ≡ pos (cast_for j true t.events)
  Casts-tallied_for true c j p e = ground (
    arith,
    sum-pos (cast_for id true s.events) c.0.votes_for w c.14 (h.tallied_for id c.0 c.1) c.10 c.15,
    h.tallied_for j p,
  )
  Casts-tallied_for false c j p e = ground (arith, h.tallied_for j p, h.tallied_for id c.0)

  Casts-tallied_against :
      (for : Bool)
      → Casts env v id for w s t
      → (j : ℕ) (p : GovernanceProposal) → t.proposal j ≡ some p
      → p.votes_against ≡ pos (cast_for j false t.events)
  Casts-tallied_against false c j p e = ground (
    arith,
    sum-pos (cast_for id false s.events) c.0.votes_against w c.14 (h.tallied_against id c.0 c.1)
        c.10 c.15,
    h.tallied_against j p,
  )
  Casts-tallied_against true c j p e =
      ground (arith, h.tallied_against j p, h.tallied_against id c.0)

  pub Casts-IsTallied : (for : Bool) → Casts env v id for w s t → IsTallied t
  Casts-IsTallied for c = record {
    started = ground (arith, h.started);
    unborn = Casts-IsUnborn for c;
    tallied_for = Casts-tallied_for for c;
    tallied_against = Casts-tallied_against for c;
    tallied_by = Casts-tallied_by for c;
  }
