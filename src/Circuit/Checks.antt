-- ===== src/Circuit/Checks.antt =====
-- What the checks of zk/circuit/src/range.rs hold a value to.
use stellar_did_credit.Circuit.Bits.{
  all_false-drop, enforce_fp_range-sub, enforce_fp_range_lem, uint32_to_fp_lem,
}
use stellar_did_credit.Base.{
  Bool-cases, ap, arith, false, inl, inr, leb, ltb, nat_eq, sat_add, suc, true, u32_max, zero, ℕ,
  ◌&&◌, ◌-◌, ◌==◌, ◌^◌, ◌||◌, ◌∙◌, ◌≡◌, ◌≤◌, ◌⊎◌,
}
use stellar_did_credit.Circuit.Field.{IsLarge, PrimeField, constant_lem, sub-ge, sub-lt}
use stellar_did_credit.Circuit.Range.{
  enforce_fp_range, enforce_u32_gt, enforce_u32_gt_fp, enforce_u32_gte, enforce_u32_less_than,
  enforce_u32_range,
}

below_lem : (v bound : ℕ) → leb v (bound - 1) ≡ (ltb v bound || (v == 0 && bound == 0))
below_lem v zero = ground arith
below_lem v (suc n) = ground arith

above_lem :
    (v bound : ℕ)
    → v ≤ u32_max
    → bound ≤ u32_max
    → leb (sat_add u32_max bound 1) v ≡ (ltb bound v || (v == u32_max && bound == u32_max))
above_lem v bound hv hb = ground arith

-- For 32-bit numbers the comparisons hold exactly where they should, but for two cases that the saturating arithmetic lets through: 0 below the bound 0, and `u32::MAX` above the bound `u32::MAX`. The range checks hold exactly below the power of two.
pub range_checks_decide :
    (f : PrimeField) (v bound : ℕ)
    → IsLarge f
    → v ≤ u32_max
    → bound ≤ u32_max
    → (enforce_u32_less_than f v bound ≡ (ltb v bound || (v == 0 && bound == 0)))
      × (enforce_u32_gte f v bound ≡ leb bound v)
      × (enforce_u32_gt f v bound ≡ (ltb bound v || (v == u32_max && bound == u32_max)))
      × (enforce_u32_gt_fp f v bound ≡ ltb bound v)
      × ((bits : ℕ) → enforce_u32_range v bits ≡ ltb v (2 ^ bits))
unfolding enforce_u32_less_than enforce_u32_gte enforce_u32_gt enforce_u32_gt_fp enforce_u32_range
range_checks_decide f v bound large hv hb =
    let value = uint32_to_fp_lem f v large (omega arith) in
    let fixed : (n : ℕ) → n ≤ u32_max → f.constant n ≡ n =
      λ n h. constant_lem f large n (omega arith) in
    let sub : (a b : ℕ) → a ≤ u32_max → b ≤ u32_max → enforce_fp_range f (f.sub a b) 32 ≡ leb b a =
      λ a b ha hb.
        enforce_fp_range-sub f a b 32 large (omega arith) (omega arith) (omega arith)
        ∙ ground arith in
    let sub_twice : (leb bound v ≡ true) ⊎ (leb bound v ≡ false)
        → enforce_fp_range f (f.sub (f.sub v bound) 1) 32 ≡ ltb bound v =
      elim [
        | inl e ↦
            ap (λ t. enforce_fp_range f (f.sub t 1) 32)
              (sub-ge f large v bound (ground arith) (omega arith))
            ∙ sub (v - bound) 1 (omega arith) (omega arith)
            ∙ ground arith
        | inr e ↦
            ap (λ t. enforce_fp_range f (f.sub t 1) 32)
              (sub-lt f large v bound (ground arith) (omega arith))
            ∙ ap (λ t. enforce_fp_range f t 32)
                (sub-ge f large (f.modulus - (bound - v)) 1 (omega arith) (ground arith))
            ∙ enforce_fp_range_lem f (f.modulus - (bound - v) - 1) 32 large (ground arith)
            ∙ ground arith
      ] in
    (
      rw (value, fixed (bound - 1) (omega arith))
          (sub (bound - 1) v (omega arith) hv ∙ below_lem v bound),
      rw (value, fixed bound hb) (sub v bound hv hb),
      rw (value, fixed (sat_add u32_max bound 1) (omega arith))
          (sub v (sat_add u32_max bound 1) hv (omega arith) ∙ above_lem v bound hv hb),
      rw (value, fixed 1 (omega arith)) (sub_twice (Bool-cases (leb bound v))),
      λ bits. all_false-drop bits 32 v (omega arith),
    )
