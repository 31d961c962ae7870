-- ===== src/Circuit/Range.antt =====
-- The helpers of zk/circuit/src/range.rs: from bits to a field element, and the range checks.
use stellar_did_credit.Base.{
  Bool, List, [], drop, if◌then◌else◌, not, sat_add, true, u32_max, ℕ, ◌&&◌, ◌-◌, ◌∷◌,
}
use stellar_did_credit.Circuit.Field.{PrimeField, to_bits_le}

-- The loop that enforces that each bit from `k` on is false.
unfoldable pub all_false : List Bool → Bool
all_false [] = true
all_false (b ∷ bits) = not b && all_false bits

unfoldable pub fp_from_bits_from : PrimeField → ℕ → ℕ → List Bool → ℕ
fp_from_bits_from f acc pow [] = acc
fp_from_bits_from f acc pow (b ∷ bits) =
    let term = f.constant (if b then 1 else 0) in
    fp_from_bits_from f (f.add acc (f.mul term pow)) (f.mul pow (f.constant 2)) bits

unfoldable pub fp_from_bits : PrimeField → List Bool → ℕ
unfolding fp_from_bits_from
fp_from_bits f bits = fp_from_bits_from f (f.constant 0) (f.constant 1) bits

-- The public wrapper.
unfoldable pub fp_from_bits_le : PrimeField → List Bool → ℕ
unfolding fp_from_bits
fp_from_bits_le f bits = fp_from_bits f bits

unfoldable pub uint32_to_fp : PrimeField → ℕ → ℕ
uint32_to_fp f value = fp_from_bits f (to_bits_le 32 value)

unfoldable pub uint64_to_fp : PrimeField → ℕ → ℕ
uint64_to_fp f value = fp_from_bits f (to_bits_le 64 value)

unfoldable pub boolean_to_fp : PrimeField → Bool → ℕ
boolean_to_fp f value = f.constant (if value then 1 else 0)

-- The range check of a field element: its bits from `k` on are false.
unfoldable pub enforce_fp_range : PrimeField → ℕ → ℕ → Bool
unfolding all_false
enforce_fp_range f x k = all_false (drop k (f.to_bits_le x))

unfoldable pub enforce_u32_less_than : PrimeField → ℕ → ℕ → Bool
unfolding uint32_to_fp enforce_fp_range
enforce_u32_less_than f value bound =
    let bound_minus_one = bound - 1 in
    let diff = f.sub (f.constant bound_minus_one) (uint32_to_fp f value) in
    enforce_fp_range f diff 32

unfoldable pub enforce_u32_gte : PrimeField → ℕ → ℕ → Bool
unfolding uint32_to_fp enforce_fp_range
enforce_u32_gte f value bound =
    let diff = f.sub (uint32_to_fp f value) (f.constant bound) in enforce_fp_range f diff 32

unfoldable pub enforce_u32_gt : PrimeField → ℕ → ℕ → Bool
unfolding enforce_u32_gte
enforce_u32_gt f value bound = enforce_u32_gte f value (sat_add u32_max bound 1)

unfoldable pub enforce_u32_gt_fp : PrimeField → ℕ → ℕ → Bool
unfolding uint32_to_fp enforce_fp_range
enforce_u32_gt_fp f value bound =
    let diff = f.sub (f.sub (uint32_to_fp f value) bound) (f.constant 1) in
    enforce_fp_range f diff 32

unfoldable pub enforce_u32_range : ℕ → ℕ → Bool
unfolding to_bits_le all_false
enforce_u32_range value bits = all_false (drop bits (to_bits_le 32 value))

unfoldable pub enforce_u64_range : ℕ → ℕ → Bool
unfolding to_bits_le all_false
enforce_u64_range value bits = all_false (drop bits (to_bits_le 64 value))
