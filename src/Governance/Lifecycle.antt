-- ===== src/Governance/Lifecycle.antt =====
-- The life of a proposal: what may change it, and what never changes.
use stellar_did_credit.Base.{
  Bool, Bool-cases, Option, add_i128-eq, ap, arith, false, if◌then◌else◌, inl, inr, leb_ℤ, min,
  nat_beq_iff, nat_eq, pos, put, put_same, refl, some, true, u32_max, ℕ, ℤ, ◌+ℤ◌, ◌+◌, ◌<◌, ◌==◌,
  ◌≡◌, ◌≤◌, ◌⊎◌,
}
use stellar_did_credit.Host.{Address, Ensures, Ensures-imp, Env, ok}
use stellar_did_credit.CreditOracle.Types.{is_valid}
use stellar_did_credit.Governance.State.{
  Governance, GovernanceProposal, Peer, propose_weights_at, returned,
}
use stellar_did_credit.Governance.Outcomes.{
  Effect, cancels, casts, cleans, creates, executes, run-Effect, settles, starts, weighs,
}
use stellar_did_credit.Governance.Tallies.{next_id}
use stellar_did_credit.Governance.Steps.{Request, run}
use stellar_did_credit.Governance.Proposals.{quorum_of}

-- A proposal is made, under a number, by its proposer.
abbrev pub IsMade : Env → Governance → ℕ → GovernanceProposal → Type 0
IsMade env s id p =
    (id ≡ next_id s)
    × (p.id ≡ id)
    × (env.authorized p.proposer ≡ true)
    × (is_valid p.proposed_weights ≡ some true)
    × (env.sequence < p.expiry_ledger)
    × (p.votes_for ≡ pos 0)
    × (p.votes_against ≡ pos 0)
    × (p.executed ≡ false)
    × (p.cancelled ≡ false)
    × (quorum_of s.quorum_percent env s ≡ ok p.quorum_required s)

-- A voter adds a positive weight, within the registered one, to a tally of an open proposal.
abbrev pub IsVoted : Env → Governance → ℕ → GovernanceProposal → GovernanceProposal → Type 0
IsVoted env s id p q =
    (p.executed ≡ false)
    × (p.cancelled ≡ false)
    × (env.sequence ≤ p.expiry_ledger)
    × (v : Address) × (env.authorized v ≡ true)
    × (n : ℤ) × (s.voter_weight v ≡ some n)
    × (w : ℤ) × (leb_ℤ w (pos 0) ≡ false)
    × (for : Bool) × (c : ℤ) × (c ≡ (if for then p.votes_for else p.votes_against) +ℤ w)
    × (q ≡ (if for then record p { votes_for = c } else record p { votes_against = c }))

-- A proposal is enacted: after the vote and the delay, with a majority and the quorum, and with
-- its weights taken by the credit oracle.
abbrev pub IsEnacted : Peer → Env → Governance → GovernanceProposal → GovernanceProposal → Type 0
IsEnacted peer env s p q =
    (p.executed ≡ false)
    × (p.cancelled ≡ false)
    × (min (p.expiry_ledger + p.execution_delay_ledgers) u32_max < env.sequence)
    × (p.expiry_ledger < env.sequence)
    × (leb_ℤ p.votes_for p.votes_against ≡ false)
    × (leb_ℤ p.quorum_required (p.votes_for +ℤ p.votes_against) ≡ true)
    × (o : Address) × (s.credit_oracle ≡ some o)
    × (peer (propose_weights_at o p.proposed_weights) ≡ returned)
    × (q ≡ record p { executed = true })

-- A proposal is withdrawn, by its proposer or the administrator.
abbrev pub IsWithdrawn : Env → Governance → ℕ → GovernanceProposal → GovernanceProposal → Type 0
IsWithdrawn env s id p q =
    (p.executed ≡ false)
    × (p.cancelled ≡ false)
    × (a : Address) × (env.authorized a ≡ true)
    × ((s.admin ≡ some a) ⊎ (s.proposer id ≡ some a))
    × (q ≡ record p { cancelled = true })

abbrev pub Advances :
    Peer → Env → Governance → ℕ → Option GovernanceProposal → Option GovernanceProposal → Type 0
Advances peer env s id before after =
    (after ≡ before)
    ⊎ ((p : GovernanceProposal) × (after ≡ some p) × IsMade env s id p)
    ⊎ ((p : GovernanceProposal) × (before ≡ some p)
        × (q : GovernanceProposal) × (after ≡ some q)
        × (IsVoted env s id p q ⊎ IsEnacted peer env s p q ⊎ IsWithdrawn env s id p q))

Advances-put :
    (peer : Peer) (env : Env) (s t : Governance) (id : ℕ) (q : GovernanceProposal)
    → t.proposal ≡ put id q s.proposal
    → Advances peer env s id (s.proposal id) (some q)
    → (j : ℕ) → Advances peer env s j (s.proposal j) (t.proposal j)
Advances-put peer env s t id q e m j = elim (Bool-cases (j == id)) [
  | inl same ↦ rw ((nat_beq_iff j id).0 same) (rw e (rw (put_same id q s.proposal) m))
  | inr other ↦ inl (ground arith)
]

Effect-Advances :
    (peer : Peer) (env : Env) (s t : Governance)
    → Effect peer env s t
    → (id : ℕ) → Advances peer env s id (s.proposal id) (t.proposal id)
Effect-Advances peer env s t (starts c) j = inl (ground arith)
Effect-Advances peer env s t (settles c) j = inl (ground arith)
Effect-Advances peer env s t (weighs v w c) j = inl (ground arith)
Effect-Advances peer env s t (cleans id vs c) j = inl (ground arith)
Effect-Advances peer env s t (creates a w period delay id c) j =
    Advances-put peer env s t id _ (ap (λ (g : Governance). g.proposal) c.7)
      (inr (inl (_, refl, (c.1, refl, c.3, c.2, omega arith, refl, refl, refl, refl, c.6)))) j
Effect-Advances peer env s t (casts v id true w c) j =
    Advances-put peer env s t id (record c.0 { votes_for = c.14 })
      (ap (λ (g : Governance). g.proposal) c.16)
      (inr (
        inr (
          c.0,
          c.1,
          _,
          refl,
          inl (
            c.2,
            c.3,
            c.4,
            v,
            c.5,
            c.6,
            c.7,
            w,
            c.10,
            true,
            c.14,
            add_i128-eq c.0.votes_for w c.15,
            refl,
          ),
        )))
      j
Effect-Advances peer env s t (casts v id false w c) j =
    Advances-put peer env s t id (record c.0 { votes_against = c.14 })
      (ap (λ (g : Governance). g.proposal) c.16)
      (inr (
        inr (
          c.0,
          c.1,
          _,
          refl,
          inl (
            c.2,
            c.3,
            c.4,
            v,
            c.5,
            c.6,
            c.7,
            w,
            c.10,
            false,
            c.14,
            add_i128-eq c.0.votes_against w c.15,
            refl,
          ),
        )))
      j
Effect-Advances peer env s t (executes id c) j =
    Advances-put peer env s t id (record c.0 { executed = true })
      (ap (λ (g : Governance). g.proposal) c.13)
      (inr (
        inr (
          c.0,
          c.1,
          _,
          refl,
          inr (
              inl (
                c.2,
                c.3,
                c.5,
                c.4,
                c.6,
                (rw (add_i128-eq c.0.votes_for c.0.votes_against c.8) at c.9),
                c.10,
                c.11,
                c.12,
                refl,
              )),
        )))
      j
Effect-Advances peer env s t (cancels a id c) j =
    Advances-put peer env s t id (record c.0 { cancelled = true })
      (ap (λ (g : Governance). g.proposal) c.6)
      (inr (inr (c.0, c.1, _, refl, inr (inr (c.2, c.3, a, c.4, c.5, refl))))) j

-- A successful request leaves a proposal alone; or makes it, under the next number, with valid
-- weights, an expiry ahead, no votes and the quorum of that moment, as its proposer authorized; or
-- adds a positive weight of an authorized and registered voter to one tally of an open proposal
-- that is not past its expiry; or executes it, past its expiry and its delay, with more votes for
-- than against and its quorum, and with its weights taken by the oracle; or cancels it, as the
-- administrator or the recorded proposer authorized. An executed or cancelled proposal is only
-- left alone, unless its number is the next one.
pub run-Advances :
    (peer : Peer) (req : Request) (env : Env) (s : Governance)
    → Ensures
        (λ _ t. (id : ℕ) → Advances peer env s id (s.proposal id) (t.proposal id))
        (run peer req env s)
run-Advances peer req env s =
    Ensures-imp (λ t e. Effect-Advances peer env s t e) (run peer req env s)
      (run-Effect peer req env s)
