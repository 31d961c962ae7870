-- ===== src/Circuit/Bits.antt =====
-- The gadgets of zk/circuit/src/range.rs as numbers: a value read back from its bits, and the range
-- checks.
use native.Mathlib.Nat.{one-le-pow, pow-suc}
use stellar_did_credit.Base.{
  Bool, Bool-cases, List, ap, arith, drop, if◌then◌else◌, inl, inr, leb, ltb, mul_mono, nat_eq, suc,
  zero, ℕ, ◌%◌, ◌&&◌, ◌*◌, ◌+◌, ◌-◌, ◌/◌, ◌<◌, ◌==◌, ◌^◌, ◌∙◌, ◌∷◌, ◌≡◌, ◌≤◌,
}
use stellar_did_credit.Circuit.Field.{
  IsLarge, PrimeField, add_lem, constant_lem, mul_lem, sub-ge, sub-lt, to_bits_le,
}
use stellar_did_credit.Circuit.Range.{
  all_false, enforce_fp_range, fp_from_bits, fp_from_bits_from, uint32_to_fp, uint64_to_fp,
}

-- The bits from `k` on are false exactly for the numbers below `2 ^ k`.
pub all_false-drop : (k n v : ℕ) → v < 2 ^ n → all_false (drop k (to_bits_le n v)) ≡ ltb v (2 ^ k)
unfolding all_false to_bits_le
all_false-drop zero zero v h = ground arith
all_false-drop (suc k) zero v h = let small = pow-suc 2 k in ground (arith, one-le-pow k 2)
all_false-drop zero (suc n) v h =
    let rest = all_false-drop zero n (v / 2) (omega (arith, pow-suc 2 n)) in ground (arith, rest)
all_false-drop (suc k) (suc n) v h =
    let rest = all_false-drop k n (v / 2) (omega (arith, pow-suc 2 n)) in
    rest ∙ ground (arith, pow-suc 2 k)

pub enforce_fp_range_lem :
    (f : PrimeField) (x k : ℕ) → IsLarge f → x < f.modulus → enforce_fp_range f x k ≡ ltb x (2 ^ k)
unfolding enforce_fp_range
enforce_fp_range_lem f x k large h =
    rw (large.bits_law x h) (all_false-drop k f.modulus_bit_size x (omega arith))

fp_from_bits_from-cons :
    (f : PrimeField) (large : IsLarge f) (b : Bool) (bits : List Bool) (acc pow : ℕ)
    → acc < pow
    → pow * 2 < f.modulus
    → fp_from_bits_from f acc pow (b ∷ bits)
      ≡ fp_from_bits_from f (acc + (if b then pow else 0)) (pow * 2) bits
unfolding fp_from_bits_from
fp_from_bits_from-cons f large b bits acc pow a p =
    let two : f.mul pow (f.constant 2) ≡ pow * 2 =
      ap (f.mul pow) (constant_lem f large 2 (omega arith)) ∙ mul_lem f large pow 2 p in
    let term : f.mul (f.constant (if b then 1 else 0)) pow ≡ (if b then pow else 0) =
      elim (Bool-cases b) [
        | inl e ↦ rw e (
            ap (λ n. f.mul n pow) (constant_lem f large 1 (omega arith))
            ∙ mul_lem f large 1 pow (omega arith)
            ∙ omega arith)
        | inr e ↦ rw e (
            ap (λ n. f.mul n pow) (constant_lem f large 0 (omega arith))
            ∙ mul_lem f large 0 pow (omega arith)
            ∙ omega arith)
      ] in
    let small : (if b then pow else 0) ≤ pow = ground arith in
    ap (λ t. fp_from_bits_from f (f.add acc t) (f.mul pow (f.constant 2)) bits) term
    ∙ ap (λ t. fp_from_bits_from f t (f.mul pow (f.constant 2)) bits)
        (add_lem f large acc (if b then pow else 0) (omega arith))
    ∙ ap (λ t. fp_from_bits_from f (acc + (if b then pow else 0)) t bits) two

fp_from_bits_from_lem :
    (f : PrimeField) (large : IsLarge f) (n v acc pow : ℕ)
    → v < 2 ^ n
    → acc < pow
    → pow * 2 ^ n < f.modulus
    → fp_from_bits_from f acc pow (to_bits_le n v) ≡ acc + pow * v
unfolding fp_from_bits_from to_bits_le
fp_from_bits_from_lem f large zero v acc pow h a p =
    let none : v ≡ 0 = omega arith in rw none (omega arith)
fp_from_bits_from_lem f large (suc n) v acc pow h a p =
    let fits : pow * 2 * 2 ^ n < f.modulus = omega (arith, ap (λ t. pow * t) (pow-suc 2 n)) in
    let one : pow * 2 * 1 ≤ pow * 2 * 2 ^ n =
      mul_mono (pow * 2) 1 (pow * 2) (2 ^ n) (omega arith) (one-le-pow n 2 (omega arith)) in
    let bit : ℕ = if v % 2 == 1 then pow else 0 in
    let read : bit + pow * 2 * (v / 2) ≡ pow * v = elim (Bool-cases (v % 2 == 1)) [
      | inl e ↦
          let odd : v ≡ 2 * (v / 2) + 1 = ground arith in
          rw e (omega (arith, ap (λ t. pow * t) odd))
      | inr e ↦
          let even : v ≡ 2 * (v / 2) = ground arith in rw e (omega (arith, ap (λ t. pow * t) even))
    ] in
    fp_from_bits_from-cons f large (v % 2 == 1) (to_bits_le n (v / 2)) acc pow a (omega arith)
    ∙ fp_from_bits_from_lem f large n (v / 2) (acc + bit) (pow * 2) (omega (arith, pow-suc 2 n))
        (ground arith) fits
    ∙ omega arith

pub uint32_to_fp_lem : (f : PrimeField) (v : ℕ) → IsLarge f → v < 2 ^ 32 → uint32_to_fp f v ≡ v
unfolding uint32_to_fp fp_from_bits
uint32_to_fp_lem f v large h =
    rw (constant_lem f large 0 (omega arith), constant_lem f large 1 (omega arith))
      (fp_from_bits_from_lem f large 32 v 0 1 h (omega arith) (omega arith) ∙ omega arith)

pub uint64_to_fp_lem : (f : PrimeField) (v : ℕ) → IsLarge f → v < 2 ^ 64 → uint64_to_fp f v ≡ v
unfolding uint64_to_fp fp_from_bits
uint64_to_fp_lem f v large h =
    rw (constant_lem f large 0 (omega arith), constant_lem f large 1 (omega arith))
      (fp_from_bits_from_lem f large 64 v 0 1 h (omega arith) (omega arith) ∙ omega arith)

-- The check of a difference: it may not be negative, and is below `2 ^ k`.
pub enforce_fp_range-sub :
    (f : PrimeField) (a b k : ℕ)
    → IsLarge f
    → a < 2 ^ 80
    → b < 2 ^ 80
    → 2 ^ k ≤ 2 ^ 80
    → enforce_fp_range f (f.sub a b) k ≡ (leb b a && ltb (a - b) (2 ^ k))
enforce_fp_range-sub f a b k large ha hb hk = elim (Bool-cases (leb b a)) [
  | inl e ↦
      let same = sub-ge f large a b (ground arith) (omega arith) in
      rw (same, e) (enforce_fp_range_lem f (a - b) k large (omega arith))
  | inr e ↦
      let same = sub-lt f large a b (ground arith) (omega arith) in
      let big = enforce_fp_range_lem f (f.modulus - (b - a)) k large (ground arith) in
      rw (same, e) (big ∙ ground arith)
]
