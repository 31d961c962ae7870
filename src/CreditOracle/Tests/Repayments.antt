-- ===== src/CreditOracle/Tests/Repayments.antt =====
-- The theorems on repayment records at concrete states.
use stellar_did_credit.Base.{[], nat_eq, none, put, refl, some, ◌∷◌, ◌⊎◌}
use stellar_did_credit.CreditOracle.State.{Oracle, layout_v1}
use stellar_did_credit.CreditOracle.Inputs.{migrate}
use stellar_did_credit.CreditOracle.Repayments.{HasLayoutV2, IsBlank, Reach-HasLayoutV2}
use stellar_did_credit.CreditOracle.Migration.{MigratesAll, migrate_lem}
use stellar_did_credit.CreditOracle.Tests.{Reach-started, live, signed_at, started}

Reach-HasLayoutV2_example : IsBlank started ⊎ HasLayoutV2 started
Reach-HasLayoutV2_example = Reach-HasLayoutV2 Reach-started

-- A contract of the first storage version.
abbrev old : Oracle
old = record live {
  storage_version = some 1;
  repayment_record =
      put 10 (layout_v1 (record { on_time_count = 3; total_count = 4 }))
        (put 11 (layout_v1 (record { on_time_count = 1; total_count = 1 })) (λ _. none));
}

migrate_lem_example : MigratesAll (10 ∷ []) old (migrate (10 ∷ []) (signed_at 60) old)
migrate_lem_example = migrate_lem (10 ∷ []) (signed_at 60) old refl refl
