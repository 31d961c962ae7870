-- ===== src/Governance/Paging.antt =====
-- The pages of `list_proposals` in contracts/governance/src/lib.rs.
use stellar_did_credit.Governance.Tallies.{next_id}
use mathlib.Core.List.{append-nil, append_assoc}
use stellar_did_credit.Base.{
  Bool, Bool-cases, List, Option, [], arith, if◌then◌else◌, inl, inr, leb, min, nat_eq, none, not,
  refl, sat_add, some, suc, sym, u64_max, zero, ℕ, ◌&&◌, ◌++◌, ◌+◌, ◌-◌, ◌==◌, ◌||◌, ◌∙◌, ◌∷◌, ◌≡◌,
  ◌≤◌,
}
use stellar_did_credit.Governance.State.{Governance, GovernanceProposal}
use stellar_did_credit.Governance.Proposals.{
  get_proposal, list_proposals, push_proposal, push_proposals,
}

-- A stored proposal, if it is to be listed.
abbrev pub visible : Bool → Option GovernanceProposal → List GovernanceProposal
visible include_inactive none = []
visible include_inactive (some p) =
    if include_inactive || not p.executed && not p.cancelled then p ∷ [] else []

-- The proposals to be listed among `rounds` numbers from `id` on.
abbrev pub visibles : Governance → Bool → ℕ → ℕ → List GovernanceProposal
visibles s include_inactive zero id = []
visibles s include_inactive (suc rounds) id =
    visible include_inactive (get_proposal s id) ++ visibles s include_inactive rounds (id + 1)

push_proposal_lem :
    (inc : Bool) (o : Option GovernanceProposal) (result : List GovernanceProposal)
    → push_proposal inc o result ≡ result ++ visible inc o
unfolding push_proposal
push_proposal_lem inc none result = sym (append-nil result)
push_proposal_lem inc (some p) result =
    elim (Bool-cases (inc || not p.executed && not p.cancelled)) [
      | inl e ↦ rw e refl
      | inr e ↦ rw e (sym (append-nil result))
    ]

push_proposals_lem :
    (s : Governance) (inc : Bool) (rounds id : ℕ) (result : List GovernanceProposal)
    → push_proposals s inc rounds id result ≡ result ++ visibles s inc rounds id
unfolding push_proposals get_proposal
push_proposals_lem s inc zero id result = sym (append-nil result)
push_proposals_lem s inc (suc rounds) id result =
    push_proposals_lem s inc rounds (id + 1) (push_proposal inc (s.proposal id) result)
    ∙ rw (push_proposal_lem inc (s.proposal id) result)
        (append_assoc result (visible inc (s.proposal id)) (visibles s inc rounds (id + 1)))

visibles-add :
    (s : Governance) (inc : Bool) (m n k id j : ℕ)
    → k ≡ m + n
    → j ≡ id + m
    → visibles s inc k id ≡ visibles s inc m id ++ visibles s inc n j
visibles-add s inc zero n k id j e f =
    let p : k ≡ n = omega arith in let q : j ≡ id = omega arith in rw (p, q) refl
visibles-add s inc (suc m) n zero id j e f = absurd (omega arith)
visibles-add s inc (suc m) n (suc k) id j e f =
    rw (visibles-add s inc m n k (id + 1) j (omega arith) (omega arith)) (
      sym (
        append_assoc (visible inc (get_proposal s id)) (visibles s inc m (id + 1))
          (visibles s inc n j)))

-- The numbers that a page covers.
abbrev pub page_size : Governance → ℕ → ℕ → ℕ
page_size s from_id limit = min (from_id + min limit 20) (next_id s) - from_id

list_proposals_lem :
    (s : Governance) (from_id limit : ℕ) (inc : Bool)
    → from_id + limit ≤ u64_max
    → list_proposals s from_id limit inc ≡ visibles s inc (page_size s from_id limit) from_id
unfolding list_proposals
list_proposals_lem s from_id limit inc fits = elim (Bool-cases (min limit 20 == 0)) [
  | inl empty ↦ let z : page_size s from_id limit ≡ 0 = ground arith in rw (empty, z) refl
  | inr some_left ↦ elim (Bool-cases (leb (next_id s) from_id)) [
    | inl past ↦
        let z : page_size s from_id limit ≡ 0 = ground arith in rw (some_left, past, z) refl
    | inr within ↦
        let z : min (sat_add u64_max from_id (min limit 20)) (next_id s) - from_id
            ≡ page_size s from_id limit =
          ground arith in
        rw (some_left, within, z) (push_proposals_lem s inc (page_size s from_id limit) from_id [])
  ]
]

-- For at most 20 numbers that fit a `u64`, a page of `list_proposals` is the page of the first of
-- them followed by the page of the others, with or without inactive proposals.
pub list_proposals-append :
    (s : Governance) (from_id a b : ℕ) (inc : Bool)
    → a + b ≤ 20
    → from_id + a + b ≤ u64_max
    → list_proposals s from_id (a + b) inc
      ≡ list_proposals s from_id a inc ++ list_proposals s (from_id + a) b inc
list_proposals-append s from_id a b inc cap fits =
    rw
      (
        list_proposals_lem s from_id (a + b) inc (omega arith),
        list_proposals_lem s from_id a inc (omega arith),
        list_proposals_lem s (from_id + a) b inc fits,
      )
      (elim (Bool-cases (leb (from_id + a) (next_id s))) [
        | inl within ↦
            visibles-add s inc (page_size s from_id a) (page_size s (from_id + a) b)
              (page_size s from_id (a + b)) from_id (from_id + a) (ground arith) (ground arith)
        | inr past ↦
            let z : page_size s (from_id + a) b ≡ 0 = ground arith in
            let same : page_size s from_id (a + b) ≡ page_size s from_id a = ground arith in
            rw (z, same) (sym (append-nil (visibles s inc (page_size s from_id a) from_id)))
      ])
