-- ===== src/Circuit/Field.antt =====
-- What zk/circuit/src uses of the scalar field of ark-bls12-381 and of its variables: the residues
-- below a modulus. The value of a gadget is the value its variable takes, and the value of a check
-- is whether the constraints that it adds hold.
use native.Mathlib.Nat.{add-mod_right, mod-eq_of_lt, mod-lt}
use stellar_did_credit.Base.{
  Bool, List, [], ap, arith, nat_eq, suc, zero, ℕ, ◌%◌, ◌*◌, ◌+◌, ◌-◌, ◌/◌, ◌<◌, ◌==◌, ◌^◌, ◌∙◌,
  ◌∷◌, ◌≡◌, ◌≤◌,
}

pub record PrimeField : Type 0 where
  pub modulus : ℕ
  pub modulus_bit_size : ℕ
  pub constant : ℕ → ℕ
  pub add : ℕ → ℕ → ℕ
  pub sub : ℕ → ℕ → ℕ
  pub mul : ℕ → ℕ → ℕ
  pub to_bits_le : ℕ → List Bool
  pub from_le_bytes_mod_order : List ℕ → ℕ

-- The lowest `n` bits of a number, as a `UInt32` or a `UInt64` holds them.
unfoldable pub to_bits_le : ℕ → ℕ → List Bool
to_bits_le zero v = []
to_bits_le (suc n) v = (v % 2 == 1) ∷ to_bits_le n (v / 2)

-- What the circuit relies on: elements are residues below the modulus, their bits are the canonical
-- ones, and the products of machine words in the circuit are below the modulus.
pub record IsLarge (f : PrimeField) : Type 0 where
  pub large : 2 ^ 100 ≤ f.modulus
  pub covered : f.modulus ≤ 2 ^ f.modulus_bit_size
  pub constant_law : (n : ℕ) → f.constant n ≡ n % f.modulus
  pub add_law : (a b : ℕ) → f.add a b ≡ (a + b) % f.modulus
  pub sub_law : (a b : ℕ) → f.sub a b ≡ (a + (f.modulus - b)) % f.modulus
  pub mul_law : (a b : ℕ) → f.mul a b ≡ (a * b) % f.modulus
  pub bits_law : (x : ℕ) → x < f.modulus → f.to_bits_le x ≡ to_bits_le f.modulus_bit_size x

module _ (f : PrimeField) (large : IsLarge f) where
  pub constant_lem : (n : ℕ) → n < f.modulus → f.constant n ≡ n
  constant_lem n h = large.constant_law n ∙ mod-eq_of_lt h

  pub add_lem : (a b : ℕ) → a + b < f.modulus → f.add a b ≡ a + b
  add_lem a b h = large.add_law a b ∙ mod-eq_of_lt h

  pub mul_lem : (a b : ℕ) → a * b < f.modulus → f.mul a b ≡ a * b
  mul_lem a b h = large.mul_law a b ∙ mod-eq_of_lt h

  pub sub-ge : (a b : ℕ) → b ≤ a → a < f.modulus → f.sub a b ≡ a - b
  sub-ge a b le h =
      let regroup : a + (f.modulus - b) ≡ a - b + f.modulus = omega arith in
      large.sub_law a b
      ∙ ap (λ n. n % f.modulus) regroup
      ∙ add-mod_right (a - b) f.modulus
      ∙ mod-eq_of_lt (omega arith)

  pub sub-lt : (a b : ℕ) → a < b → b < f.modulus → f.sub a b ≡ f.modulus - (b - a)
  sub-lt a b lt h = large.sub_law a b ∙ mod-eq_of_lt (omega arith) ∙ omega arith

  pub sub-below : (a b : ℕ) → f.sub a b < f.modulus
  sub-below a b = rw (large.sub_law a b) (mod-lt (a + (f.modulus - b)) (omega (arith, large.large)))
