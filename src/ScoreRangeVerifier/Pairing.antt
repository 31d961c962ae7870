-- ===== src/ScoreRangeVerifier/Pairing.antt =====
-- The linear combination and the pairing check of contracts/score-range-verifier/src/lib.rs.
use stellar_did_credit.ScoreRangeVerifier.Encoding.{public_inputs_to_fields}
use stellar_did_credit.ScoreRangeVerifier.Key.{embedded_verification_key}
use stellar_did_credit.Base.{
  Bool, List, Option, Option-cases, [], ap, arith, drop, get_elem?, inl, inr, length, nat_beq_iff,
  nat_eq, none, refl, some, suc, sym, take, true, zero, ℕ, ◌&&◌, ◌++◌, ◌+◌, ◌-◌, ◌==◌, ◌∙◌, ◌∷◌,
  ◌≡◌, ◌≤◌, ◌⊎◌,
}
use stellar_did_credit.ScoreRangeVerifier.State.{
  Bytes, Crypto, ScoreRangePublicInputs, VerificationKey, proof_size,
}
use stellar_did_credit.ScoreRangeVerifier.Groth16.{
  add_inputs, check_pairing, compute_public_inputs_combined, groth16_verify, slice, ◌>>=◌,
}

-- The host computes with the encodings of points of the curve, which are those that `is_point`
-- accepts: a multiple of a point and a sum of two points are points.
pub record IsCurve (crypto : Crypto) (is_point : Bytes → Bool) : Type 0 where
  pub multiplies :
      (p x : Bytes)
      → is_point p ≡ true
      → (q : Bytes) × (crypto.g1_mul p x ≡ some q) × (is_point q ≡ true)
  pub adds :
      (p q : Bytes)
      → is_point p ≡ true
      → is_point q ≡ true
      → (r : Bytes) × (crypto.g1_add p q ≡ some r) × (is_point r ≡ true)

abbrev pub all_points : (Bytes → Bool) → List Bytes → Bool
all_points is_point [] = true
all_points is_point (p ∷ ps) = is_point p && all_points is_point ps

-- `a + x₀ · p₀ + x₁ · p₁ + …`, where a point is missing `none`.
abbrev pub linear : Crypto → Bytes → List Bytes → List Bytes → Option Bytes
linear crypto a ps [] = some a
linear crypto a [] (x ∷ xs) = none
linear crypto a (p ∷ ps) (x ∷ xs) =
    crypto.g1_mul p x >>= λ term. crypto.g1_add a term >>= λ a'. linear crypto a' ps xs

-- A list from an index on.
drop_cases {ℓ} :
    {A : Type ℓ} (xs : List A) (i : ℕ)
    → ((get_elem? xs i ≡ none) × (drop i xs ≡ []))
      ⊎ ((x : A) × (get_elem? xs i ≡ some x) × (drop i xs ≡ x ∷ drop (suc i) xs))
drop_cases [] zero = inl (refl, refl)
drop_cases [] (suc i) = inl (refl, refl)
drop_cases (x ∷ xs) zero = inr (x, refl, refl)
drop_cases (x ∷ xs) (suc i) = drop_cases xs i

add_inputs_lem :
    (crypto : Crypto) (vk : VerificationKey) (xs : List Bytes) (i j : ℕ) (a : Bytes)
    → j ≡ i + 1
    → add_inputs crypto vk xs i a ≡ linear crypto a (drop j vk.gamma_abc) xs
unfolding add_inputs
add_inputs_lem crypto vk [] i j a e = refl
add_inputs_lem crypto vk (x ∷ xs) i j a e = elim (drop_cases vk.gamma_abc j) [
  | inl (g, d) ↦ rw (sym e) (rw (g, d) refl)
  | inr (p, g, d) ↦ rw (sym e) (
      rw (g, d)
        (elim (Option-cases (crypto.g1_mul p x)) [
          | inl m ↦ rw m refl
          | inr (term, m) ↦ rw m (elim (Option-cases (crypto.g1_add a term)) [
            | inl n ↦ rw n refl
            | inr (a', n) ↦ rw n (add_inputs_lem crypto vk xs j (suc j) a' (omega arith))
          ])
        ]))
]

linear_total :
    (crypto : Crypto) (is_point : Bytes → Bool)
    → IsCurve crypto is_point
    → (a : Bytes) (ps xs : List Bytes) → length xs ≤ length ps
    → is_point a ≡ true
    → all_points is_point ps ≡ true
    → (c : Bytes) × (linear crypto a ps xs ≡ some c)
linear_total crypto is_point host a ps [] l ha hp = (a, refl)
linear_total crypto is_point host a [] (x ∷ xs) l ha hp = absurd (omega arith)
linear_total crypto is_point host a (p ∷ ps) (x ∷ xs) l ha hp =
    let (term, m, on) = host.multiplies p x (ground arith) in
    let (a', n, on') = host.adds a term ha on in
    let r = linear_total crypto is_point host a' ps xs (omega arith) on' (ground arith) in
    (r.0, rw (m, n) r.1)

take-append-drop {ℓ} : {A : Type ℓ} (n : ℕ) (xs : List A) → take n xs ++ drop n xs ≡ xs
take-append-drop zero xs = refl
take-append-drop (suc n) [] = refl
take-append-drop (suc n) (x ∷ xs) = rw (take-append-drop n xs) refl

drop-nil {ℓ} : {A : Type ℓ} (n : ℕ) → drop {A = A} n [] ≡ []
drop-nil zero = refl
drop-nil (suc n) = refl

drop-drop {ℓ} : {A : Type ℓ} (m n k : ℕ) (xs : List A) → k ≡ m + n → drop n (drop m xs) ≡ drop k xs
drop-drop zero n k xs e = let p : k ≡ n = omega arith in rw p refl
drop-drop (suc m) n zero xs e = absurd (omega arith)
drop-drop (suc m) n (suc k) [] e = drop-nil n
drop-drop (suc m) n (suc k) (x ∷ xs) e = drop-drop m n k xs (omega arith)

take-all {ℓ} : {A : Type ℓ} (n : ℕ) (xs : List A) → length xs ≤ n → take n xs ≡ xs
take-all zero [] h = refl
take-all zero (x ∷ xs) h = absurd (omega arith)
take-all (suc n) [] h = refl
take-all (suc n) (x ∷ xs) h = rw (take-all n xs (omega arith)) refl

length-drop {ℓ} : {A : Type ℓ} (n : ℕ) (xs : List A) → length (drop n xs) ≡ length xs - n
length-drop zero xs = omega arith
length-drop (suc n) [] = omega arith
length-drop (suc n) (x ∷ xs) = omega (arith, length-drop n xs)

-- The proof is split into its three points. If the host rejects the first, so is the result;
-- otherwise the pairing check gets its negation, the points of the key, the combination of the
-- public inputs, and the other two.
abbrev pub ChecksPairing : Crypto → VerificationKey → Bytes → List Bytes → Option Bool → Type 0
ChecksPairing crypto vk proof fields result =
    (a : Bytes) × (b : Bytes) × (c : Bytes) × (a ++ (b ++ c) ≡ proof)
    × (length a ≡ 96)
    × (length b ≡ 192)
    × (length c ≡ 96)
    × (first : Bytes) × (rest : List Bytes) × (vk.gamma_abc ≡ first ∷ rest)
    × (combined : Bytes) × (linear crypto first rest fields ≡ some combined)
    × (result ≡ (
        crypto.neg a >>= λ neg_a.
        crypto.pairing_check (neg_a ∷ vk.alpha ∷ combined ∷ c ∷ [])
          (b ∷ vk.beta ∷ vk.gamma ∷ vk.delta ∷ [])))

-- A proof of 384 bytes is its three parts.
three_parts :
    (proof : Bytes)
    → length proof ≡ proof_size
    → take 96 proof ++ (take 192 (drop 96 proof) ++ take 96 (drop 288 proof)) ≡ proof
three_parts proof size =
    let last : take 96 (drop 288 proof) ≡ drop 288 proof =
      take-all 96 (drop 288 proof) (omega (arith, length-drop 288 proof)) in
    let middle : take 192 (drop 96 proof) ++ drop 288 proof ≡ drop 96 proof =
      rw (sym (drop-drop 96 192 288 proof refl)) (take-append-drop 192 (drop 96 proof)) in
    rw (last, middle) (take-append-drop 96 proof)

combined_lem :
    (crypto : Crypto) (vk : VerificationKey) (fields : List Bytes) (first : Bytes)
    (rest : List Bytes)
    → vk.gamma_abc ≡ first ∷ rest
    → compute_public_inputs_combined crypto vk fields ≡ linear crypto first rest fields
unfolding compute_public_inputs_combined
combined_lem crypto vk fields first rest key =
    let g : get_elem? vk.gamma_abc 0 ≡ some first = rw key refl in
    let d : drop 1 vk.gamma_abc ≡ rest = rw key refl in
    rw g (add_inputs_lem crypto vk fields 0 1 first refl ∙ rw d refl)

length-take {ℓ} : {A : Type ℓ} (n : ℕ) (xs : List A) → n ≤ length xs → length (take n xs) ≡ n
length-take zero xs h = refl
length-take (suc n) [] h = absurd (omega arith)
length-take (suc n) (x ∷ xs) h = omega (arith, length-take n xs)

check_pairing-ChecksPairing :
    (crypto : Crypto) (is_point : Bytes → Bool) (vk : VerificationKey) (proof : Bytes)
    (fields : List Bytes) (first : Bytes) (rest : List Bytes)
    → IsCurve crypto is_point
    → all_points is_point vk.gamma_abc ≡ true
    → length proof ≡ proof_size
    → vk.gamma_abc ≡ first ∷ rest
    → length fields ≤ length rest
    → ChecksPairing crypto vk proof fields (check_pairing crypto vk proof fields)
unfolding check_pairing slice
check_pairing-ChecksPairing crypto is_point vk proof fields first rest host points size key enough =
    let on : all_points is_point (first ∷ rest) ≡ true =
      ap (all_points is_point) (sym key) ∙ points in
    let sum =
      linear_total crypto is_point host first rest fields enough (ground (arith, on))
        (ground (arith, on)) in
    (
      take 96 proof,
      take 192 (drop 96 proof),
      take 96 (drop 288 proof),
      three_parts proof size,
      length-take 96 proof (omega arith),
      length-take 192 (drop 96 proof) (omega (arith, length-drop 96 proof)),
      length-take 96 (drop 288 proof) (omega (arith, length-drop 288 proof)),
      first,
      rest,
      key,
      sum.0,
      sum.1,
      rw (size, combined_lem crypto vk fields first rest key, sum.1) refl,
    )

-- If the host multiplies and adds points of the curve to points of the curve, and the points of the
-- embedded key are such, `groth16_verify` of a proof of 384 bytes traps if the host rejects the
-- first point of the proof, and is otherwise the pairing check of its negation, the points of the
-- key, the sum of the first point and of each public input times its point, and the other two
-- points, where the three points of 96, 192 and 96 bytes make up the proof.
pub groth16_verify_lem :
    (crypto : Crypto) (is_point : Bytes → Bool) (proof : Bytes) (inputs : ScoreRangePublicInputs)
    → IsCurve crypto is_point
    → all_points is_point embedded_verification_key.gamma_abc ≡ true
    → length proof ≡ proof_size
    → ChecksPairing crypto embedded_verification_key proof
        (public_inputs_to_fields crypto inputs)
        (groth16_verify crypto proof inputs)
unfolding groth16_verify public_inputs_to_fields
groth16_verify_lem crypto is_point proof inputs host points size =
    let right : (length proof == proof_size) ≡ true =
      (nat_beq_iff (length proof) proof_size).1 size in
    rw right (
      check_pairing-ChecksPairing crypto is_point embedded_verification_key proof
        (public_inputs_to_fields crypto inputs) _ _ host points size
        (unfold embedded_verification_key in refl) (omega arith))
