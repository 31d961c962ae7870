-- ===== src/Circuit/Exact/Scaling.antt =====
-- The last scaling of zk/circuit/src/score_circuit.rs as a condition on numbers.
use native.Mathlib.Nat.{add-mul-mod_self_right, mod-eq_of_lt}
use stellar_did_credit.Circuit.Inputs.{ScoreWitness}
use stellar_did_credit.Base.{
  Bool-cases, ap, arith, inl, inr, leb, ltb, u32_max, ℕ, ◌%◌, ◌&&◌, ◌*◌, ◌+◌, ◌-◌, ◌<◌, ◌^◌, ◌∙◌,
  ◌≡◌, ◌≤◌,
}
use stellar_did_credit.Circuit.Field.{IsLarge, PrimeField, mul_lem, sub-ge, sub-lt}
use stellar_did_credit.Circuit.Range.{enforce_fp_range, enforce_u32_range}
use stellar_did_credit.Circuit.Bits.{all_false-drop, enforce_fp_range-sub, enforce_fp_range_lem}
use stellar_did_credit.Circuit.Constraints.{enforce_score}
use stellar_did_credit.Circuit.Exact.{fixed, word}

number_check :
    (a s : ℕ)
    → 300 ≤ s
    → (leb ((s - 300) * 100) a && ltb (a - (s - 300) * 100) 128)
      ≡ (leb (s * 100) (a + 30000) && ltb (a + 30000 - s * 100) 128)
number_check a s h = ground arith

number_check_below :
    (a s : ℕ)
    → s < 300
    → ltb (a + (300 - s) * 100) 128 ≡ (leb (s * 100) (a + 30000) && ltb (a + 30000 - s * 100) 128)
number_check_below a s h = ground arith

module _ (f : PrimeField) (large : IsLarge f) where
  negated_hundred : (y : ℕ) → 0 < y → y ≤ 300 → f.mul (f.modulus - y) 100 ≡ f.modulus - y * 100
  negated_hundred y some_y h =
      let same : (f.modulus - y) * 100 ≡ f.modulus - y * 100 + 99 * f.modulus = omega arith in
      large.mul_law (f.modulus - y) 100
      ∙ ap (λ t. t % f.modulus) same
      ∙ add-mul-mod_self_right (f.modulus - y * 100) 99 f.modulus
      ∙ mod-eq_of_lt (omega arith)

  scaled_check :
      (a s : ℕ)
      → a < 2 ^ 64
      → s < 2 ^ 32
      → enforce_fp_range f (f.sub a (f.mul (f.sub s 300) 100)) 7
        ≡ (leb (s * 100) (a + 30000) && ltb (a + 30000 - s * 100) 128)
  scaled_check a s ha hs = elim (Bool-cases (leb 300 s)) [
    | inl e ↦
        rw
          (
            sub-ge f large s 300 (ground arith) (omega arith),
            mul_lem f large (s - 300) 100 (omega arith),
          )
          (enforce_fp_range-sub f a ((s - 300) * 100) 7 large (omega arith) (omega arith)
              (omega arith)
            ∙ number_check a s (ground arith))
    | inr e ↦
        let y = 300 - s in
        let below : s < 300 = ground arith in
        let sum : f.sub a (f.modulus - y * 100) ≡ a + y * 100 =
          large.sub_law a (f.modulus - y * 100)
          ∙ (let same : a + (f.modulus - (f.modulus - y * 100)) ≡ a + y * 100 = omega arith in
              ap (λ t. t % f.modulus) same)
          ∙ mod-eq_of_lt (omega arith) in
        rw
          (
            sub-lt f large s 300 below (omega arith),
            negated_hundred y (omega arith) (omega arith),
            sum,
          )
          (enforce_fp_range_lem f (a + y * 100) 7 large (omega arith)
            ∙ number_check_below a s below)
  ]

  pub enforce_score_lem :
      (w : ScoreWitness)
      → w.score ≤ u32_max
      → w.composite ≤ u32_max
      → let scaled = w.composite * 550 + 30000 in
        enforce_score f w
        ≡ ((leb (w.score * 100) scaled && ltb (scaled - w.score * 100) 128) && ltb w.score 1024)
  unfolding enforce_score enforce_u32_range
  enforce_score_lem w hs hc =
      rw
        (
          word f large w.score hs,
          word f large w.composite hc,
          fixed f large 300 (omega arith),
          fixed f large 100 (omega arith),
          fixed f large 550 (omega arith),
          mul_lem f large w.composite 550 (omega arith),
          all_false-drop 10 32 w.score (omega arith),
        )
        (ap (λ t. t && ltb w.score 1024)
          (scaled_check (w.composite * 550) w.score (omega arith) (omega arith)))
