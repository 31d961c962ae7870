-- ===== src/CreditOracle/Repayments.antt =====
-- Repayment records in the current layout: what `record_repayment` keeps true of them.
use stellar_did_credit.CreditOracle.Registration.{deregister_lender, register_lender}
use mathlib.Core.Path.{subst}
use stellar_did_credit.CreditOracle.Types.{CreditOracleError, IdentityClient, RepaymentRecord}
use stellar_did_credit.CreditOracle.Steps.{
  Reach, Request, Step, accept, add_lender, drop_lender, here, initialize_with, invocation,
  migrate_all, next, propose, repay, run, upgrade_to,
}
use stellar_did_credit.CreditOracle.Frame.{
  access, lenders, repayment-cases, repayments, run-Unchanged, version,
}
use stellar_did_credit.CreditOracle.Admin.{accept_admin, initialize, propose_new_admin, upgrade}
use stellar_did_credit.Base.{
  Bool, List, Option, [], ap, arith, false, i128_max, inl, inr, nat_eq, none, pos, put, refl, some,
  true, u32_max, u64_max, unwrap_or, ℤ, ◌+◌, ◌<◌, ◌∙◌, ◌∷◌, ◌≡◌, ◌≤ℤ◌, ◌≤◌, ◌⊎◌,
}
use stellar_did_credit.Host.{
  Address, Ensures, Ensures-both, Ensures-imp, Env, Outcome, ensured, err, ok, trap,
}
use stellar_did_credit.CreditOracle.State.{
  Oracle, StoredRepayment, deployed, layout_v1, layout_v2, load_protocol_stats,
}
use stellar_did_credit.CreditOracle.Inputs.{
  migrate, migrate_each, no_repayments, record_repayment, repaid,
}

-- A record of layout V2 whose counters and sum are in range and fit each other.
abbrev pub IsRecord : Option StoredRepayment → Type 0
IsRecord none = Unit
IsRecord (some (layout_v1 r)) = ⊥
IsRecord (some (layout_v2 r)) =
    (r.on_time_count ≤ r.total_count)
    × (r.total_count ≤ u32_max)
    × (pos 0 ≤ℤ r.total_repaid)
    × (r.total_repaid ≤ℤ i128_max)

pub record HasLayoutV2 (s : Oracle) : Type 0 where
  pub layout : s.storage_version ≡ some 2
  pub records : (u : Address) → IsRecord (s.repayment_record u)

-- The state of a contract before `initialize`.
pub record IsBlank (s : Oracle) : Type 0 where
  pub no_admin : s.admin ≡ none
  pub no_pending : s.pending_admin ≡ none
  pub no_lenders : (a : Address) → s.trusted_lender a ≡ none
  pub no_records : (u : Address) → s.repayment_record u ≡ none

-- The record that a repayment starts from.
abbrev pub current : Option StoredRepayment → RepaymentRecord
current none = no_repayments
current (some (layout_v1 r)) = no_repayments
current (some (layout_v2 r)) = r

repaid-IsRecord :
    (amount : ℤ) (on_time : Bool) (o : Option StoredRepayment)
    → IsRecord o
    → pos 1 ≤ℤ amount
    → IsRecord (some (layout_v2 (repaid amount on_time (current o))))
unfolding repaid
repaid-IsRecord amount on_time none h p = ground arith
repaid-IsRecord amount on_time (some (layout_v1 r)) h p = absurd h
repaid-IsRecord amount on_time (some (layout_v2 r)) h p = ground arith

-- A successful call writes the record of its subject, adding one repayment to it, and no other.
pub record_repayment_lem :
    (l u : Address) (amount : ℤ) (on_time : Bool) (env : Env) (s : Oracle)
    → HasLayoutV2 s
    → Ensures
        (λ _ t.
          (t.repayment_record
            ≡ put u
                (layout_v2 (repaid amount on_time (current (s.repayment_record u))))
                s.repayment_record)
          × (pos 1 ≤ℤ amount))
        (record_repayment l u amount on_time env s)
unfolding record_repayment
record_repayment_lem l u amount on_time env s h = ground (arith, h.layout, h.records u)

-- With no record of the old layout left, the loop of `migrate` changes nothing or traps.
migrate_each-V2 :
    (us : List Address) (env : Env) (s : Oracle)
    → ((u : Address) → IsRecord (s.repayment_record u))
    → Ensures (λ _ t. t ≡ s) (migrate_each us env s)
unfolding migrate_each
migrate_each-V2 [] env s h = refl
migrate_each-V2 (u ∷ us) env s h = elim (repayment-cases (s.repayment_record u)) [
  | inl e ↦ rw e (migrate_each-V2 us env s h)
  | inr (inl (r, e)) ↦ absurd (subst IsRecord e (h u))
  | inr (inr (r, e)) ↦ rw e tt
]

run-HasLayoutV2 :
    (client : IdentityClient) (req : Request) (env : Env) (s : Oracle)
    → HasLayoutV2 s
    → Ensures (λ _. HasLayoutV2) (run client req env s)
unfolding run
run-HasLayoutV2 client (initialize_with a) env s h = unfold initialize in ground arith
run-HasLayoutV2 client (repay l u amount on_time) env s h =
    Ensures-both
      (λ t e frame. record {
        layout = frame version refl ∙ h.layout;
        records = λ v. ground (
          arith,
          ap (λ m. m v) e.0,
          h.records v,
          repaid-IsRecord amount on_time (s.repayment_record u) (h.records u) e.1,
        );
      })
      (record_repayment l u amount on_time env s) (record_repayment_lem l u amount on_time env s h)
      (run-Unchanged client (repay l u amount on_time) env s)
run-HasLayoutV2 client (migrate_all us) env s h =
    unfold migrate in ground (arith, migrate_each-V2 us env s h.records, h.layout, h.records)
run-HasLayoutV2 client req env s h =
    Ensures-imp
      (λ t frame. record {
        layout = frame version refl ∙ h.layout;
        records = λ v. rw (frame repayments refl) (h.records v);
      })
      (run client req env s) (run-Unchanged client req env s)

initialize_version :
    (a : Address) (env : Env) (s : Oracle)
    → Ensures (λ _ t. t.storage_version ≡ some 2) (initialize a env s)
unfolding initialize
initialize_version a env s = ground arith

run-IsBlank :
    (client : IdentityClient) (req : Request) (env : Env) (s : Oracle)
    → IsBlank s
    → Ensures (λ _ t. IsBlank t ⊎ HasLayoutV2 t) (run client req env s)
unfolding run
run-IsBlank client (initialize_with a) env s b =
    Ensures-both
      (λ t v frame.
        inr (record { layout = v; records = λ u. rw (frame repayments refl, b.no_records u) tt }))
      (initialize a env s) (initialize_version a env s)
      (run-Unchanged client (initialize_with a) env s)
run-IsBlank client (propose a) env s b = unfold propose_new_admin in ground (arith, b.no_admin)
run-IsBlank client (accept a) env s b = unfold accept_admin in ground (arith, b.no_pending)
run-IsBlank client (upgrade_to a w) env s b = unfold upgrade in ground (arith, b.no_admin)
run-IsBlank client (add_lender a l) env s b = unfold register_lender in ground (arith, b.no_admin)
run-IsBlank client (drop_lender a l) env s b =
    unfold deregister_lender in ground (arith, b.no_admin)
run-IsBlank client (repay l u amount on_time) env s b =
    unfold record_repayment in ground (arith, b.no_lenders l)
run-IsBlank client (migrate_all us) env s b = unfold migrate in ground (arith, b.no_admin)
run-IsBlank client req env s b =
    Ensures-imp
      (λ t frame. inl (record {
        no_admin = (frame access refl).0 ∙ b.no_admin;
        no_pending = (frame access refl).1 ∙ b.no_pending;
        no_lenders = λ a. rw ((frame lenders refl).1) (b.no_lenders a);
        no_records = λ u. rw (frame repayments refl) (b.no_records u);
      }))
      (run client req env s) (run-Unchanged client req env s)

Step-HasLayoutV2 : {s t : Oracle} → Step s t → IsBlank s ⊎ HasLayoutV2 s → IsBlank t ⊎ HasLayoutV2 t
Step-HasLayoutV2 {s} (invocation client req env e) (inl b) =
    ensured _ (run client req env s) (run-IsBlank client req env s b) e
Step-HasLayoutV2 {s} (invocation client req env e) (inr h) =
    inr (ensured _ (run client req env s) (run-HasLayoutV2 client req env s h) e)

-- In every state that a fresh contract can reach, either it was not initialized and holds no
-- repayment, or every repayment record has the current layout, counts no more on-time repayments
-- than repayments, with `u32` counters, and its sum is a non-negative `i128`.
pub Reach-HasLayoutV2 : {t : Oracle} → Reach deployed t → IsBlank t ⊎ HasLayoutV2 t
Reach-HasLayoutV2 here = inl (ground arith)
Reach-HasLayoutV2 (next r st) = Step-HasLayoutV2 st (Reach-HasLayoutV2 r)

abbrev pub Recorded :
    Address → ℤ → Bool → Oracle → Outcome CreditOracleError Oracle (Unit {0}) → Type 0
Recorded u amount on_time s (ok a t) =
    (t.repayment_record
      ≡ put u (layout_v2 (repaid amount on_time (current (s.repayment_record u))))
          s.repayment_record)
    × ((load_protocol_stats t).total_repayments_recorded
        ≡ (load_protocol_stats s).total_repayments_recorded + 1)
Recorded u amount on_time s (err e) = ⊥
Recorded u amount on_time s trap = ⊥

-- On a contract with the current layout, a trusted lender that is authorized can always record a
-- positive amount while the contract is not paused, unless the `u64` counter of all repayments
-- is full: the subject's record gains one repayment and the amount, both up to saturation, no
-- other record changes, and the counter goes up by one.
pub record_repayment_succeeds :
    (l u : Address) (amount : ℤ) (on_time : Bool) (env : Env) (s : Oracle)
    → HasLayoutV2 s
    → pos 1 ≤ℤ amount
    → unwrap_or s.paused false ≡ false
    → env.authorized l ≡ true
    → s.trusted_lender l ≡ some true
    → (load_protocol_stats s).total_repayments_recorded < u64_max
    → Recorded u amount on_time s (record_repayment l u amount on_time env s)
unfolding record_repayment load_protocol_stats
record_repayment_succeeds l u amount on_time env s h p unpaused auth trusted room =
    ground (arith, h.layout, h.records u)
