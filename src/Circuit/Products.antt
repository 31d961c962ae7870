-- ===== src/Circuit/Products.antt =====
-- The constraint `(x - y) * (x - z) == 0` of zk/circuit/src/score_circuit.rs as numbers.
use stellar_did_credit.Circuit.Field.{IsLarge, PrimeField, mul_lem, sub-ge, sub-lt}
use native.Mathlib.Nat.{div-add-mod', mod-eq_of_lt, mul_comm, mul-mod_left, mul-sub}
use stellar_did_credit.Base.{
  Bool-cases, ap, arith, inl, inr, leb, mul_mono, nat_eq, refl, suc, sym, zero, ℕ, ◌%◌, ◌*◌, ◌+◌,
  ◌-◌, ◌/◌, ◌<◌, ◌==◌, ◌^◌, ◌||◌, ◌∙◌, ◌≡◌, ◌≤◌, ◌⊎◌,
}

negated-mod : (p y z : ℕ) → 0 < p → y ≤ p → ((p - y) * z) % p ≡ 0 → (y * z) % p ≡ 0
negated-mod p y z some_p h e =
    let k = (p - y) * z / p in
    let whole : k * p ≡ (p - y) * z = omega (arith, div-add-mod' ((p - y) * z) p) in
    let split : (p - y + y) * z ≡ p * z = ap (λ t. t * z) (omega arith) in
    let rest : y * z ≡ (z - k) * p = omega (arith, mul-sub p z k) in
    rw rest (mul-mod_left (z - k) p)

-- A number, or the negative of one.
IsSigned : ℕ → ℕ → ℕ → Type 0
IsSigned p x u = (u ≡ x) ⊎ (u ≡ p - x)

unsigned : (p x u v : ℕ) → 0 < p → x ≤ p → IsSigned p x u → (u * v) % p ≡ 0 → (x * v) % p ≡ 0
unfolding IsSigned
unsigned p x u v some_p h (inl e) z = rw (sym e) z
unsigned p x u v some_p h (inr e) z = negated-mod p x v some_p h (rw (sym e) z)

signed-zero :
    (p x y u v : ℕ)
    → x < 2 ^ 40
    → y < 2 ^ 40
    → 2 ^ 100 ≤ p
    → IsSigned p x u
    → IsSigned p y v
    → (u * v) % p ≡ 0
    → x * y ≡ 0
unfolding IsSigned
signed-zero p x y u v hx hy large su sv e =
    let small : x * y < p =
      omega (arith, mul_mono x y (2 ^ 40) (2 ^ 40) (omega arith) (omega arith)) in
    let first : (x * v) % p ≡ 0 = unsigned p x u v (omega arith) (omega arith) su e in
    let second : (y * x) % p ≡ 0 =
      unsigned p y v x (omega arith) (omega arith) sv (ap (λ t. t % p) (mul_comm v x) ∙ first) in
    sym (mod-eq_of_lt small) ∙ ap (λ t. t % p) (mul_comm x y) ∙ second

factors : (y z : ℕ) → y * z ≡ 0 → (y ≡ 0) ⊎ (z ≡ 0)
factors zero z e = inl refl
factors (suc y) zero e = inr refl
factors (suc y) (suc z) e = absurd (omega (arith, e))

-- The distance of two numbers.
abbrev pub distance : ℕ → ℕ → ℕ
distance a b = (a - b) + (b - a)

sub-IsSigned :
    (f : PrimeField) (a b : ℕ)
    → IsLarge f
    → a < 2 ^ 40
    → b < 2 ^ 40
    → IsSigned f.modulus (distance a b) (f.sub a b)
unfolding IsSigned
sub-IsSigned f a b large ha hb = elim (Bool-cases (leb b a)) [
  | inl e ↦ inl (sub-ge f large a b (ground arith) (omega arith) ∙ ground arith)
  | inr e ↦ inr (sub-lt f large a b (ground arith) (omega arith) ∙ ground arith)
]

sub-zero : (f : PrimeField) (a b : ℕ) → IsLarge f → a < 2 ^ 40 → a ≡ b → f.sub a b ≡ 0
sub-zero f a b large ha e = sub-ge f large a b (omega arith) (omega arith) ∙ omega arith

mul_zero : (f : PrimeField) (u v : ℕ) → IsLarge f → (u ≡ 0) ⊎ (v ≡ 0) → f.mul u v ≡ 0
mul_zero f u v large (inl e) = rw e (mul_lem f large 0 v (omega arith) ∙ omega arith)
mul_zero f u v large (inr e) = rw e (mul_lem f large u 0 (omega arith) ∙ omega arith)

-- The product of two differences is 0 exactly if one of them is.
pub product_check :
    (f : PrimeField) (a b c : ℕ)
    → IsLarge f
    → a < 2 ^ 40
    → b < 2 ^ 40
    → c < 2 ^ 40
    → (f.mul (f.sub a b) (f.sub a c) == 0) ≡ (a == b || a == c)
product_check f a b c large ha hb hc = elim (Bool-cases (f.mul (f.sub a b) (f.sub a c) == 0)) [
  | inl e ↦
      let zero_product =
        signed-zero f.modulus (distance a b) (distance a c) (f.sub a b) (f.sub a c) (omega arith)
          (omega arith) large.large (sub-IsSigned f a b large ha hb)
          (sub-IsSigned f a c large ha hc)
          (sym (large.mul_law (f.sub a b) (f.sub a c)) ∙ ground arith) in
      let one = factors (distance a b) (distance a c) zero_product in ground arith
  | inr e ↦ elim (Bool-cases (a == b)) [
    | inl same ↦
        let none : f.sub a b ≡ 0 = sub-zero f a b large ha (ground arith) in
        absurd (ground (arith, mul_zero f (f.sub a b) (f.sub a c) large (inl none)))
    | inr other ↦ elim (Bool-cases (a == c)) [
      | inl same ↦
          let none : f.sub a c ≡ 0 = sub-zero f a c large ha (ground arith) in
          absurd (ground (arith, mul_zero f (f.sub a b) (f.sub a c) large (inr none)))
      | inr neither ↦ rw (e, other, neither) refl
    ]
  ]
]
