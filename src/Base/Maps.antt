-- ===== src/Base/Maps.antt =====
-- A family of storage entries under one key constructor: a map from the key's argument.
use mathlib.Core.Bool.{Bool, true, false}
use mathlib.Core.Option.{Option, none, some}
use mathlib.Core.Path.{◌≡◌}
use native.Mathlib.Omega.{arith}
use stellar_did_credit.Base.Tests.{Comparable, if◌then◌else◌, nat_eq, ◌==◌}

abbrev pub Map {ℓ κ} : Type ℓ → Type κ → Type (ℓ ⊔ κ)
Map K V = K → Option V

module _ {ℓ κ} {K : Type ℓ} {V : Type κ} ⦃e : Comparable K⦄ where
  -- `storage().set(&Key(k), &v)`
  abbrev pub put : K → V → Map K V → Map K V
  put k v m j = if j == k then some v else m j

  -- `storage().remove(&Key(k))`
  abbrev pub remove : K → Map K V → Map K V
  remove k m j = if j == k then none else m j

  pub put_same : (k : K) (v : V) (m : Map K V) → put k v m k ≡ some v
  put_same k v m = ground (arith, e.same_iff k k)

-- `unwrap_or`
abbrev pub unwrap_or {ℓ} : {A : Type ℓ} → Option A → A → A
unwrap_or none d = d
unwrap_or (some a) d = a

-- `storage().has`
abbrev pub is_some {ℓ} : {A : Type ℓ} → Option A → Bool
is_some none = false
is_some (some a) = true
