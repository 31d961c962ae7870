-- ===== src/Base/Words.antt =====
-- Machine integers: `u32`, `u64` and `u128` are numbers with their range written out where the
-- code saturates, casts or checks, and `i128` is an integer that saturates at both ends.
use native.Mathlib.Omega.{arith}
use native.Mathlib.Nat.{le-div_iff_mul-le, div-mul-le_self}
use Prim.Native.Nat.{◌<◌, ◌≤◌, ℕ, ◌+◌, ◌-◌, ◌*◌, ◌/◌, ◌%◌, min}
use mathlib.Core.Option.{Option, none, some}
use stellar_did_credit.Base.Tests.{if◌then◌else◌, leb, nat_beq}
use stellar_did_credit.Base.Int.{leb_ℤ, neg_part, negsuc, pos, pos_part, ℤ, ◌*ℤ◌, ◌+ℤ◌, ◌-ℤ◌}
use mathlib.Core.Path.{◌≡◌}

abbrev pub u32_max : ℕ
u32_max = 4294967295

abbrev pub u64_max : ℕ
u64_max = 18446744073709551615

abbrev pub u128_max : ℕ
u128_max = 340282366920938463463374607431768211455

abbrev pub i128_max : ℤ
i128_max = pos 170141183460469231731687303715884105727

abbrev pub i128_min : ℤ
i128_min = negsuc 170141183460469231731687303715884105727

-- `saturating_add` and `saturating_mul` of an unsigned type with largest value `m`.
abbrev pub sat_add : ℕ → ℕ → ℕ → ℕ
sat_add m a b = min (a + b) m

abbrev pub sat_mul : ℕ → ℕ → ℕ → ℕ
sat_mul m a b = min (a * b) m

-- `x as u32`
abbrev pub as_u32 : ℕ → ℕ
as_u32 x = x % 4294967296

-- `checked_sub`
abbrev pub checked_sub : ℕ → ℕ → Option ℕ
checked_sub a b = if leb b a then some (a - b) else none

-- `checked_div`
abbrev pub checked_div : ℕ → ℕ → Option ℕ
checked_div a b = if nat_beq b 0 then none else some (a / b)

-- `checked_add` of an unsigned type with largest value `m`.
abbrev pub checked_add : ℕ → ℕ → ℕ → Option ℕ
checked_add m a b = if leb (a + b) m then some (a + b) else none

-- `i128::saturating_add`
abbrev pub sat_add_i128 : ℤ → ℤ → ℤ
sat_add_i128 a b =
    let s = a +ℤ b in
    if leb_ℤ s i128_max then (if leb_ℤ i128_min s then s else i128_min) else i128_max

abbrev in_i128 : ℤ → Option ℤ
in_i128 s = if leb_ℤ s i128_max then (if leb_ℤ i128_min s then some s else none) else none

-- `+`, `-` and `*` of `i128`, and `checked_add` and the like: `none` for an overflow.
unfoldable pub checked_add_i128 : ℤ → ℤ → Option ℤ
checked_add_i128 a b = in_i128 (a +ℤ b)

unfoldable pub checked_sub_i128 : ℤ → ℤ → Option ℤ
checked_sub_i128 a b = in_i128 (a -ℤ b)

unfoldable pub checked_mul_i128 : ℤ → ℤ → Option ℤ
checked_mul_i128 a b = in_i128 (a *ℤ b)

pub checked_add_i128-pos :
    (a b : ℕ)
    → checked_add_i128 (pos a) (pos b)
      ≡ (if leb (a + b) 170141183460469231731687303715884105727 then some (pos (a + b)) else none)
unfolding checked_add_i128
checked_add_i128-pos a b = ground arith

-- A sum or a difference that does not overflow is exact.
pub add_i128-parts :
    (a b : ℤ) {c : ℤ}
    → checked_add_i128 a b ≡ some c
    → pos_part c + (neg_part a + neg_part b) ≡ neg_part c + (pos_part a + pos_part b)
unfolding checked_add_i128
add_i128-parts a b h = ground arith

pub add_i128-eq : (a b : ℤ) {c : ℤ} → checked_add_i128 a b ≡ some c → c ≡ a +ℤ b
unfolding checked_add_i128
add_i128-eq a b h = ground arith

pub sub_i128-parts :
    (a b : ℤ) {c : ℤ}
    → checked_sub_i128 a b ≡ some c
    → pos_part c + (neg_part a + pos_part b) ≡ neg_part c + (pos_part a + neg_part b)
unfolding checked_sub_i128
sub_i128-parts a b h = ground arith

pub mul_mono : (a b c d : ℕ) → a ≤ c → b ≤ d → a * b ≤ c * d
mul_mono a b c d h k = grind arith

pub div_mono : (a b k : ℕ) → 0 < k → a ≤ b → a / k ≤ b / k
div_mono a b k h le = (le-div_iff_mul-le h).1 (omega (arith, div-mul-le_self a k))
