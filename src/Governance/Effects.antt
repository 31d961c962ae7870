-- ===== src/Governance/Effects.antt =====
-- What each request leaves behind in the governance contract, as one relation.
use stellar_did_credit.Governance.Proposals.{create_proposal, quorum_of}
use stellar_did_credit.CreditOracle.Types.{ScoringWeights, is_valid}
use stellar_did_credit.Base.{
  Bool, Map, Option, Option-cases, add_i128-parts, arith, checked_add_i128, checked_sub_i128, eq_ℤ,
  false, if◌then◌else◌, inl, inr, leb_ℤ, nat_eq, neg_part, none, pair_eq, pos, pos_part, put, refl,
  remove, some, sub_i128-parts, true, u32_max, unwrap_or, ℕ, ℤ, ◌+◌, ◌∷◌, ◌≡◌, ◌≤◌, ◌⊎◌,
}
use stellar_did_credit.Host.{Address, Ensures, Env, ok}
use stellar_did_credit.Governance.State.{Event, Governance, GovernanceProposal, first_proposal_id}
use stellar_did_credit.Governance.Voters.{
  deregister_voter, register_voter, update_voter_weight, vote,
}

-- The proposals and the weight that was used on them.
abbrev pub book :
    Governance
    → Option Address × Map ℕ GovernanceProposal × Map ℕ Address × Option ℕ × Map (ℕ × Address) ℤ
book s = (s.admin, s.proposal, s.proposer, s.next_proposal_id, s.vote_weight_used)

-- The register of voters.
abbrev pub roll : Governance → Map Address ℤ × Option ℤ
roll s = (s.voter_weight, s.total_registered_weight)

abbrev pub is_vote : Event → Bool
is_vote (Event.voted id v for w) = true
is_vote (Event.initialized a o) = false
is_vote e = false

-- No vote was logged.
abbrev pub Quiet : Governance → Governance → Type 0
Quiet s t = (t.events ≡ s.events) ⊎ ((e : Event) × (t.events ≡ e ∷ s.events) × (is_vote e ≡ false))

-- At most an application of weights was logged.
abbrev pub Settled : Governance → Governance → Type 0
Settled s t =
    (book t ≡ book s)
    × (roll t ≡ roll s)
    × ((t.events ≡ s.events) ⊎ ((l : ℕ) × (t.events ≡ Event.wt_applied l ∷ s.events)))

pub Settled-Quiet : (s t : Governance) → Settled s t → Quiet s t
Settled-Quiet s t (b, r, inl e) = inl e
Settled-Quiet s t (b, r, inr (l, e)) = inr (Event.wt_applied l, e, refl)

-- The voter whose weight an event sets, and that weight, `none` for no registration.
abbrev pub weight_set : Event → Option (Address × Option ℤ)
weight_set (Event.voter_reg v w) = some (v, some w)
weight_set (Event.voter_upd v w) = some (v, if eq_ℤ w (pos 0) then none else some w)
weight_set (Event.voter_der v) = some (v, none)
weight_set e = none

-- The weight of one voter is replaced, in the register and in the total.
abbrev pub Weighs : Env → Address → ℤ → Governance → Governance → Type 0
Weighs env v w s t =
    (book t ≡ book s)
    × (t.voter_weight
        ≡ (if eq_ℤ w (pos 0) then remove v s.voter_weight else put v w s.voter_weight))
    × (total : ℤ) × (t.total_registered_weight ≡ some total)
    × (let old = unwrap_or (s.voter_weight v) (pos 0) in
        let before = unwrap_or s.total_registered_weight (pos 0) in
        pos_part total + (neg_part before + pos_part old + neg_part w)
        ≡ neg_part total + (pos_part before + neg_part old + pos_part w))
    × (leb_ℤ (pos 0) w ≡ true)
    × (e : Event) × (t.events ≡ e ∷ s.events)
    × (weight_set e ≡ some (v, if eq_ℤ w (pos 0) then none else some w))
    × (a : Address) × (s.admin ≡ some a)
    × (env.authorized a ≡ true)

weight_set-is_vote :
    (e : Event) {x : Address × Option ℤ} → weight_set e ≡ some x → is_vote e ≡ false
weight_set-is_vote (Event.voted id v for w) h = cc
weight_set-is_vote (Event.initialized a o) h = refl
weight_set-is_vote e h = refl

pub Weighs-Quiet :
    (env : Env) (v : Address) (w : ℤ) (s t : Governance) → Weighs env v w s t → Quiet s t
Weighs-Quiet env v w s t c = inr (c.6, c.7, weight_set-is_vote c.6 c.8)

abbrev total_of : Governance → ℤ
total_of s = unwrap_or s.total_registered_weight (pos 0)

abbrev weight_of : Governance → Address → ℤ
weight_of s v = unwrap_or (s.voter_weight v) (pos 0)

module _ (a v : Address) (env : Env) (s : Governance) where
  pub register_voter-Weighs : (w : ℤ) → Ensures (λ _. Weighs env v w s) (register_voter a v w env s)
  unfolding register_voter
  register_voter-Weighs w = elim (Option-cases (checked_sub_i128 (total_of s) (weight_of s v))) [
    | inl e ↦ ground arith
    | inr (rest, e) ↦ elim (Option-cases (checked_add_i128 rest w)) [
      | inl f ↦ ground arith
      | inr (total, f) ↦
          grind (arith, sub_i128-parts (total_of s) (weight_of s v) e, add_i128-parts rest w f)
    ]
  ]

  pub update_voter_weight-Weighs :
      (w : ℤ) → Ensures (λ _. Weighs env v w s) (update_voter_weight a v w env s)
  unfolding update_voter_weight
  update_voter_weight-Weighs w =
      elim (Option-cases (checked_sub_i128 (total_of s) (weight_of s v))) [
        | inl e ↦ ground arith
        | inr (rest, e) ↦ elim (Option-cases (checked_add_i128 rest w)) [
          | inl f ↦ ground arith
          | inr (total, f) ↦
              grind (arith, sub_i128-parts (total_of s) (weight_of s v) e, add_i128-parts rest w f)
        ]
      ]

  pub deregister_voter-Weighs : Ensures (λ _. Weighs env v (pos 0) s) (deregister_voter a v env s)
  unfolding deregister_voter
  deregister_voter-Weighs = elim (Option-cases (checked_sub_i128 (total_of s) (weight_of s v))) [
    | inl e ↦ ground arith
    | inr (total, e) ↦ grind (arith, sub_i128-parts (total_of s) (weight_of s v) e)
  ]

-- A vote: its weight is positive and, with what the voter used before on the proposal, at most the
-- registered weight; the proposal is open.
abbrev pub Casts : Env → Address → ℕ → Bool → ℤ → Governance → Governance → Type 0
Casts env v id for w s t =
    (p : GovernanceProposal) × (s.proposal id ≡ some p)
    × (p.executed ≡ false)
    × (p.cancelled ≡ false)
    × (env.sequence ≤ p.expiry_ledger)
    × (env.authorized v ≡ true)
    × (n : ℤ) × (s.voter_weight v ≡ some n)
    × (m : ℤ) × (checked_sub_i128 n (unwrap_or (s.vote_weight_used (id, v)) (pos 0)) ≡ some m)
    × (leb_ℤ w (pos 0) ≡ false)
    × (leb_ℤ w m ≡ true)
    × (u : ℤ) × (checked_add_i128 (unwrap_or (s.vote_weight_used (id, v)) (pos 0)) w ≡ some u)
    × (c : ℤ) × (checked_add_i128 (if for then p.votes_for else p.votes_against) w ≡ some c)
    × (t ≡ record s {
      proposal =
          put id (if for then record p { votes_for = c } else record p { votes_against = c })
            s.proposal;
      vote_weight_used = put (id, v) u s.vote_weight_used;
      events = Event.voted id v for w ∷ s.events;
    })

module _ (v : Address) (id : ℕ) (w : ℤ) (env : Env) (s : Governance) where
  pub vote-Casts : (for : Bool) → Ensures (λ _. Casts env v id for w s) (vote v id for w env s)
  unfolding vote
  vote-Casts true = grind arith
  vote-Casts false = grind arith

-- A new proposal, under the next number.
abbrev pub Creates : Env → Address → ScoringWeights → ℕ → ℕ → ℕ → Governance → Governance → Type 0
Creates env a w period delay id s t =
    (q : ℤ) × (id ≡ unwrap_or s.next_proposal_id first_proposal_id)
    × (is_valid w ≡ some true)
    × (env.authorized a ≡ true)
    × (1 ≤ period)
    × (env.sequence + period ≤ u32_max)
    × (quorum_of s.quorum_percent env s ≡ ok q s)
    × (t ≡ record s {
      proposal =
          put id
            (record {
              id = id;
              proposer = a;
              proposed_weights = w;
              votes_for = pos 0;
              votes_against = pos 0;
              expiry_ledger = env.sequence + period;
              execution_delay_ledgers = delay;
              executed = false;
              cancelled = false;
              quorum_required = q;
            })
            s.proposal;
      proposer = put id a s.proposer;
      next_proposal_id = some (id + 1);
      events = Event.prop_creat id a (env.sequence + period) ∷ s.events;
    })

pub create_proposal-Creates :
    (a : Address) (w : ScoringWeights) (period delay : ℕ) (env : Env) (s : Governance)
    → Ensures (λ id. Creates env a w period delay id s) (create_proposal a w period delay env s)
unfolding create_proposal
create_proposal-Creates a w period delay env s = grind arith
