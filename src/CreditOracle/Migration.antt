-- ===== src/CreditOracle/Migration.antt =====
-- `migrate`: from the two-field repayment records to the three-field ones.
use stellar_did_credit.CreditOracle.Inputs.{migrate, migrate_each, record_v2}
use stellar_did_credit.CreditOracle.Frame.{repayment-cases}
use stellar_did_credit.CreditOracle.Compute.{load_repayment}
use stellar_did_credit.Base.{
  Bool, List, Map, Option, [], ap, arith, contains, false, if◌then◌else◌, inl, inr, is_some,
  nat_beq_iff, nat_eq, none, not, pos, put, refl, some, true, ℤ, ◌&&◌, ◌∷◌, ◌≡◌,
}
use stellar_did_credit.Host.{Address, Ensures, Env, Outcome, err, ok, trap}
use stellar_did_credit.CreditOracle.Types.{CreditOracleError, RepaymentRecord, RepaymentRecordV1}
use stellar_did_credit.CreditOracle.State.{Oracle, StoredRepayment, layout_v1, layout_v2}

-- The record in the current layout, with nothing repaid.
abbrev pub upgrade_v1 : RepaymentRecordV1 → RepaymentRecord
upgrade_v1 r = record {
  on_time_count = r.on_time_count;
  total_count = r.total_count;
  total_repaid = pos 0;
}

abbrev pub upgraded : Option StoredRepayment → Option StoredRepayment
upgraded none = none
upgraded (some (layout_v1 r)) = some (layout_v2 (upgrade_v1 r))
upgraded (some (layout_v2 r)) = some (layout_v2 r)

abbrev pub is_v2 : Option StoredRepayment → Bool
is_v2 none = false
is_v2 (some (layout_v1 r)) = false
is_v2 (some (layout_v2 r)) = true

-- The subjects' records are all absent or of the old layout, and no subject with a record comes
-- twice.
abbrev pub is_migratable : Map Address StoredRepayment → List Address → Bool
is_migratable m [] = true
is_migratable m (u ∷ us) =
    not (is_v2 (m u)) && not (is_some (m u) && contains u us) && is_migratable m us

abbrev Migrates : List Address → Oracle → Outcome CreditOracleError Oracle (Unit {0}) → Type 0
Migrates us s (ok a t) =
    (is_migratable s.repayment_record us ≡ true)
    × ((v : Address)
        → t.repayment_record v
          ≡ (if contains v us then upgraded (s.repayment_record v) else s.repayment_record v))
Migrates us s (err e) = ⊥
Migrates us s trap = is_migratable s.repayment_record us ≡ false

is_migratable-put :
    (m : Map Address StoredRepayment) (u : Address) (r : RepaymentRecord) (us : List Address)
    → is_migratable (put u (layout_v2 r) m) us ≡ (not (contains u us) && is_migratable m us)
is_migratable-put m u r [] = refl
is_migratable-put m u r (v ∷ vs) =
    ground (arith, is_migratable-put m u r vs, nat_beq_iff u v, nat_beq_iff v u)

-- The loop after a subject whose record is now of the current layout.
Migrates-v1 :
    (u : Address) (r : RepaymentRecordV1) (us : List Address) (s w : Oracle)
    (o : Outcome CreditOracleError Oracle (Unit {0}))
    → s.repayment_record u ≡ some (layout_v1 r)
    → w.repayment_record ≡ put u (layout_v2 (upgrade_v1 r)) s.repayment_record
    → Migrates us w o
    → Migrates (u ∷ us) s o
Migrates-v1 u r us s w (ok a t) e q (d, h) = (
  ground (
    arith,
    is_migratable-put s.repayment_record u (upgrade_v1 r) us,
    ap (λ m. is_migratable m us) q,
  ),
  λ v. ground (
    arith,
    h v,
    ap (λ m. m v) q,
    ap (λ m. is_migratable m us) q,
    is_migratable-put s.repayment_record u (upgrade_v1 r) us,
    nat_beq_iff u v,
    nat_beq_iff v u,
  ),
)
Migrates-v1 u r us s w (err x) e q h = h
Migrates-v1 u r us s w trap e q h = ground (
  arith,
  is_migratable-put s.repayment_record u (upgrade_v1 r) us,
  ap (λ m. is_migratable m us) q,
)

Migrates-none :
    (u : Address) (us : List Address) (s : Oracle) (o : Outcome CreditOracleError Oracle (Unit {0}))
    → s.repayment_record u ≡ none
    → Migrates us s o
    → Migrates (u ∷ us) s o
Migrates-none u us s (ok a t) e (d, h) = (ground arith, λ v. ground (arith, h v, nat_beq_iff u v))
Migrates-none u us s (err x) e h = h
Migrates-none u us s trap e h = ground arith

migrate_each-Migrates :
    (us : List Address) (env : Env) (s : Oracle) → Migrates us s (migrate_each us env s)
unfolding migrate_each
migrate_each-Migrates [] env s = (refl, λ v. refl)
migrate_each-Migrates (u ∷ us) env s = elim (repayment-cases (s.repayment_record u)) [
  | inl e ↦ rw e (Migrates-none u us s (migrate_each us env s) e (migrate_each-Migrates us env s))
  | inr (inl (r, e)) ↦
      let w = record s { repayment_record = put u (layout_v2 (upgrade_v1 r)) s.repayment_record } in
      rw e (Migrates-v1 u r us s w (migrate_each us env w) e refl (migrate_each-Migrates us env w))
  | inr (inr (r, e)) ↦ rw e (ground arith)
]

abbrev pub MigratesAll :
    List Address → Oracle → Outcome CreditOracleError Oracle (Unit {0}) → Type 0
MigratesAll us s (ok a t) =
    (is_migratable s.repayment_record us ≡ true)
    × ((v : Address)
        → t.repayment_record v
          ≡ (if contains v us then upgraded (s.repayment_record v) else s.repayment_record v))
    × (t.storage_version ≡ some 2)
MigratesAll us s (err e) = ⊥
MigratesAll us s trap = is_migratable s.repayment_record us ≡ false

-- Called by the administrator, at any storage version, `migrate` succeeds exactly if no named
-- subject has a record of the current layout and none with a record is named twice, and traps
-- otherwise. It then keeps the counters of the named subjects with nothing repaid, keeps every
-- other record as it is, and sets the storage version to 2.
pub migrate_lem :
    (us : List Address) {admin : Address} (env : Env) (s : Oracle)
    → s.admin ≡ some admin
    → env.authorized admin ≡ true
    → MigratesAll us s (migrate us env s)
unfolding migrate
migrate_lem us env s a auth = ground (arith, migrate_each-Migrates us env s)

-- A subject with a record of the old layout that a successful migration did not name can no longer
-- be read: the read of its record by `compute_score` traps, and so does recording a repayment in
-- the current layout.
pub migrate_strands :
    (us : List Address) (u : Address) {r : RepaymentRecordV1} (env later : Env) (s : Oracle)
    → s.repayment_record u ≡ some (layout_v1 r)
    → contains u us ≡ false
    → Ensures
        (λ _ t.
          (load_repayment u later t ≡ trap)
          × ((amount : ℤ) (on_time : Bool) → record_v2 u amount on_time later t ≡ trap))
        (migrate us env s)
unfolding migrate load_repayment record_v2
migrate_strands us u env later s e absent = grind (arith, migrate_each-Migrates us env s)
