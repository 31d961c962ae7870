-- ===== src/Circuit/Commitment.antt =====
-- The commitment of zk/circuit/src/commitment.rs. SHA-256 is a parameter.
use stellar_did_credit.Base.{List, [], suc, zero, ℕ, ◌%◌, ◌++◌, ◌/◌, ◌∷◌}
use stellar_did_credit.Circuit.Field.{PrimeField}

abbrev pub Bytes : Type 0
Bytes = List ℕ

abbrev pub commit_fields : ℕ
commit_fields = 8

-- `b"::pedersen_coeff::"`
abbrev pub coefficient_tag : Bytes
coefficient_tag =
    58 ∷ 58 ∷ 112 ∷ 101 ∷ 100 ∷ 101 ∷ 114 ∷ 115 ∷ 101 ∷ 110 ∷ 95 ∷ 99 ∷ 111 ∷ 101 ∷ 102 ∷ 102 ∷ 58
    ∷ 58 ∷ []

-- `u32::to_le_bytes`
abbrev pub to_le_bytes : ℕ → Bytes
to_le_bytes n = n % 256 ∷ (n / 256) % 256 ∷ (n / 65536) % 256 ∷ (n / 16777216) % 256 ∷ []

unfoldable pub coefficient : PrimeField → (Bytes → Bytes) → Bytes → ℕ → ℕ
coefficient f sha256 domain_separator i =
    f.from_le_bytes_mod_order (sha256 (domain_separator ++ (coefficient_tag ++ to_le_bytes i)))

-- The loop of `PedersenCommitment::new`: `n` coefficients from the `i`th on.
unfoldable pub coefficients_from : PrimeField → (Bytes → Bytes) → Bytes → ℕ → ℕ → List ℕ
coefficients_from f sha256 domain_separator i zero = []
coefficients_from f sha256 domain_separator i (suc n) =
    coefficient f sha256 domain_separator i ∷ coefficients_from f sha256 domain_separator (suc i) n

unfoldable pub pedersen_commitment : PrimeField → (Bytes → Bytes) → Bytes → List ℕ
unfolding coefficients_from
pedersen_commitment f sha256 domain_separator =
    coefficients_from f sha256 domain_separator 0 commit_fields

-- The loop of `commit`; both arrays have 8 entries.
unfoldable pub commit_from : PrimeField → ℕ → List ℕ → List ℕ → ℕ
commit_from f acc [] fields = acc
commit_from f acc (c ∷ coefficients) [] = acc
commit_from f acc (c ∷ coefficients) (x ∷ fields) =
    commit_from f (f.add acc (f.mul c x)) coefficients fields

unfoldable pub commit : PrimeField → List ℕ → List ℕ → ℕ → ℕ
unfolding commit_from
commit f coefficients fields blinding =
    f.add (commit_from f (f.constant 0) coefficients fields) blinding
