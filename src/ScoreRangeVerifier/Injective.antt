-- ===== src/ScoreRangeVerifier/Injective.antt =====
-- What contracts/score-range-verifier/src/lib.rs hashes determines the consumption, and a field element
-- determines the number that it encodes.
use stellar_did_credit.Base.{
  List, [], arith, length, refl, suc, sym, u32_max, zero, ℕ, ◌*◌, ◌++◌, ◌+◌, ◌∙◌, ◌∷◌, ◌≡◌, ◌≤◌,
}
use stellar_did_credit.Host.{Address}
use stellar_did_credit.ScoreRangeVerifier.State.{Bytes, Crypto, ScoreRangePublicInputs, proof_size}
use stellar_did_credit.ScoreRangeVerifier.Encoding.{preimage, to_be_bytes, u32_to_field, zeros}

append-injective {ℓ} :
    {A : Type ℓ} (xs ys us vs : List A)
    → length xs ≡ length ys
    → xs ++ us ≡ ys ++ vs
    → (xs ≡ ys) × (us ≡ vs)
append-injective [] [] us vs l e = (refl, e)
append-injective [] (y ∷ ys) us vs l e = absurd (omega arith)
append-injective (x ∷ xs) [] us vs l e = absurd (omega arith)
append-injective (x ∷ xs) (y ∷ ys) us vs l e =
    let rest = append-injective xs ys us vs (omega arith) (ground arith) in
    (ground (arith, rest.0), rest.1)

to_be_bytes-injective :
    (m n : ℕ) → m ≤ u32_max → n ≤ u32_max → to_be_bytes m ≡ to_be_bytes n → m ≡ n
to_be_bytes-injective m n h k e = ground arith

-- The ranges and the lengths that the types of the source give.
pub record IsTyped (inputs : ScoreRangePublicInputs) : Type 0 where
  pub threshold_fits : inputs.threshold ≤ u32_max
  pub ledger_fits : inputs.snapshot_ledger ≤ u32_max
  pub commitment_length : length inputs.score_commitment ≡ 32
  pub separator_length : length inputs.domain_separator ≡ 32

-- If the XDR of an address can be told from what follows it, two consumptions with proofs of 384
-- bytes, `u32` numbers and 32-byte fields hash the same bytes only if their proofs, public inputs
-- and nonces are the same.
pub preimage-injective :
    (crypto : Crypto)
    → ((a b : Address) (xs ys : Bytes)
        → crypto.to_xdr a ++ xs ≡ crypto.to_xdr b ++ ys
        → (a ≡ b) × (xs ≡ ys))
    → (proof proof' : Bytes) (inputs inputs' : ScoreRangePublicInputs) (nonce nonce' : Bytes)
    → length proof ≡ proof_size
    → length proof' ≡ proof_size
    → IsTyped inputs
    → IsTyped inputs'
    → preimage crypto proof inputs nonce ≡ preimage crypto proof' inputs' nonce'
    → (proof ≡ proof') × (inputs ≡ inputs') × (nonce ≡ nonce')
unfolding preimage
preimage-injective crypto xdr p p' i i' n n' lp lp' h h' e =
    let e1 = append-injective p p' _ _ (lp ∙ sym lp') e in
    let e2 = append-injective (to_be_bytes i.threshold) (to_be_bytes i'.threshold) _ _ refl e1.1 in
    let e3 = xdr i.subject i'.subject _ _ e2.1 in
    let e4 = xdr i.credit_oracle_id i'.credit_oracle_id _ _ e3.1 in
    let e5 =
      append-injective i.score_commitment i'.score_commitment _ _
        (h.commitment_length ∙ sym h'.commitment_length) e4.1 in
    let e6 =
      append-injective (to_be_bytes i.snapshot_ledger) (to_be_bytes i'.snapshot_ledger) _ _ refl
        e5.1 in
    let e7 =
      append-injective i.domain_separator i'.domain_separator n n'
        (h.separator_length ∙ sym h'.separator_length) e6.1 in
    let t =
      to_be_bytes-injective i.threshold i'.threshold h.threshold_fits h'.threshold_fits e2.0 in
    let l =
      to_be_bytes-injective i.snapshot_ledger i'.snapshot_ledger h.ledger_fits h'.ledger_fits
        e6.0 in
    (e1.0, ground (arith, t, e3.0, e4.0, e5.0, l, e7.0), e7.1)

-- The number that bytes encode, the lowest first.
abbrev pub value_le : Bytes → ℕ
value_le [] = 0
value_le (b ∷ bs) = b + 256 * value_le bs

value_le-zeros : (n : ℕ) → value_le (zeros n) ≡ 0
value_le-zeros zero = refl
value_le-zeros (suc n) = omega (arith, value_le-zeros n)

-- (comment)
pub u32_to_field_value :
    (value : ℕ)
    → value ≤ u32_max
    → (value_le (u32_to_field value) ≡ value) × (length (u32_to_field value) ≡ 32)
unfolding u32_to_field
u32_to_field_value value h = (omega arith, refl)
