-- ===== src/Base/Lists.antt =====
-- The host's vectors as lists, measured and cut by native numbers.
use Prim.Native.Nat.{ℕ, zero, suc, ◌+◌}
use mathlib.Core.Path.{◌≡◌, refl}
use mathlib.Core.Bool.{Bool, true, false, not, ◌&&◌, ◌||◌}
use mathlib.Core.List.{List, [], ◌∷◌, ◌++◌}
use mathlib.Core.Option.{Option, none, some}
use native.Mathlib.Omega.{arith}
use stellar_did_credit.Base.Tests.{Comparable, nat_eq, ◌==◌}

module _ {ℓ} {A : Type ℓ} where
  abbrev pub length : List A → ℕ
  length [] = 0
  length (x ∷ xs) = suc (length xs)

  abbrev pub get_elem? : List A → ℕ → Option A
  get_elem? [] i = none
  get_elem? (x ∷ xs) zero = some x
  get_elem? (x ∷ xs) (suc i) = get_elem? xs i

  abbrev pub take : ℕ → List A → List A
  take zero xs = []
  take (suc n) [] = []
  take (suc n) (x ∷ xs) = x ∷ take n xs

  abbrev pub drop : ℕ → List A → List A
  drop zero xs = xs
  drop (suc n) [] = []
  drop (suc n) (x ∷ xs) = drop n xs

  abbrev pub is_empty : List A → Bool
  is_empty [] = true
  is_empty (x ∷ xs) = false

  -- `Vec::push_back`
  abbrev pub push_back : List A → A → List A
  push_back xs a = xs ++ a ∷ []

  pub length-append : (xs ys : List A) → length (xs ++ ys) ≡ length xs + length ys
  length-append [] ys = omega arith
  length-append (x ∷ xs) ys = omega (arith, length-append xs ys)

-- `Vec::contains`, and the loops that search a vector up to the first hit.
module _ {ℓ} {A : Type ℓ} ⦃e : Comparable A⦄ where
  abbrev pub contains : A → List A → Bool
  contains a [] = false
  contains a (x ∷ xs) = x == a || contains a xs

  -- No entry occurs twice.
  abbrev pub is_distinct : List A → Bool
  is_distinct [] = true
  is_distinct (x ∷ xs) = not (contains x xs) && is_distinct xs

  pub contains-push_back :
      (k h : A) (xs : List A) → contains k (push_back xs h) ≡ (contains k xs || h == k)
  contains-push_back k h [] = ground arith
  contains-push_back k h (x ∷ xs) = ground (arith, contains-push_back k h xs)

  pub is_distinct-push_back :
      (h : A) (xs : List A) → contains h xs ≡ false → is_distinct (push_back xs h) ≡ is_distinct xs
  is_distinct-push_back h [] p = refl
  is_distinct-push_back h (x ∷ xs) p =
      ground (
        arith,
        is_distinct-push_back h xs,
        contains-push_back x h xs,
        e.same_iff h x,
        e.same_iff x h,
      )
