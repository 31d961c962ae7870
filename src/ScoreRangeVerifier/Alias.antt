-- ===== src/ScoreRangeVerifier/Alias.antt =====
-- Public inputs in two encodings in contracts/score-range-verifier/src/lib.rs.
use stellar_did_credit.ScoreRangeVerifier.Replay.{
  Consumes, Reach-Later, verify_and_consume-Consumes,
}
use stellar_did_credit.ScoreRangeVerifier.Key.{embedded_verification_key}
use stellar_did_credit.Base.{
  List, Option-cases, [], ap, arith, false, get_elem?, if◌then◌else◌, inl, inr, is_some, length,
  list_eq, nat_eq, none, not, put, refl, some, sym, true, ℕ, ◌+◌, ◌==◌, ◌∙◌, ◌∷◌, ◌≡◌,
}
use stellar_did_credit.Host.{Address, Env, ensured, ok}
use stellar_did_credit.ScoreRangeVerifier.State.{
  Bytes, Crypto, ScoreRangePublicInputs, VerificationKey, Verifier, proof_size,
}
use stellar_did_credit.ScoreRangeVerifier.Encoding.{preimage, public_inputs_to_fields}
use stellar_did_credit.ScoreRangeVerifier.Groth16.{
  add_inputs, check_pairing, compute_public_inputs_combined, groth16_verify,
}
use stellar_did_credit.ScoreRangeVerifier.Contract.{Reach, consume, verify_and_consume}

-- Entries that the host reads as the same elements of the field.
abbrev pub SameReads : (Bytes → ℕ) → List Bytes → List Bytes → Type 0
SameReads read [] [] = Unit
SameReads read [] (y ∷ ys) = ⊥
SameReads read (x ∷ xs) [] = ⊥
SameReads read (x ∷ xs) (y ∷ ys) = (read x ≡ read y) × SameReads read xs ys

module _ (crypto : Crypto) (read : Bytes → ℕ)
    (reads : (p x y : Bytes) → read x ≡ read y → crypto.g1_mul p x ≡ crypto.g1_mul p y) where
  add_inputs-same :
      (vk : VerificationKey) (xs ys : List Bytes) (i : ℕ) (a : Bytes)
      → SameReads read xs ys
      → add_inputs crypto vk xs i a ≡ add_inputs crypto vk ys i a
  unfolding add_inputs
  add_inputs-same vk [] [] i a h = refl
  add_inputs-same vk [] (y ∷ ys) i a h = absurd h
  add_inputs-same vk (x ∷ xs) [] i a h = absurd h
  add_inputs-same vk (x ∷ xs) (y ∷ ys) i a h =
      elim (Option-cases (get_elem? vk.gamma_abc (i + 1))) [
        | inl g ↦ rw g refl
        | inr (p, g) ↦
            rw (g, reads p x y h.0)
              (elim (Option-cases (crypto.g1_mul p y)) [
                | inl m ↦ rw m refl
                | inr (term, m) ↦ rw m (elim (Option-cases (crypto.g1_add a term)) [
                  | inl n ↦ rw n refl
                  | inr (a', n) ↦ rw n (add_inputs-same vk xs ys (i + 1) a' h.1)
                ])
              ])
      ]

  check_pairing-same :
      (vk : VerificationKey) (proof : Bytes) (xs ys : List Bytes)
      → SameReads read xs ys
      → check_pairing crypto vk proof xs ≡ check_pairing crypto vk proof ys
  unfolding check_pairing compute_public_inputs_combined
  check_pairing-same vk proof xs ys h = elim (Option-cases (get_elem? vk.gamma_abc 0)) [
    | inl g ↦ rw g refl
    | inr (first, g) ↦ rw (g, add_inputs-same vk xs ys 0 first h) refl
  ]

  groth16_verify-same :
      (proof : Bytes) (inputs : ScoreRangePublicInputs) (commitment : Bytes)
      → read inputs.score_commitment ≡ read commitment
      → groth16_verify crypto proof inputs
        ≡ groth16_verify crypto proof (record inputs { score_commitment = commitment })
  unfolding groth16_verify
  groth16_verify-same proof inputs commitment h =
      let other : ScoreRangePublicInputs = record inputs { score_commitment = commitment } in
      let same : SameReads read (public_inputs_to_fields crypto inputs)
          (public_inputs_to_fields crypto other) =
        unfold public_inputs_to_fields in (refl, (refl, (refl, (h, (refl, (refl, tt)))))) in
      ap (λ t. if not (length proof == proof_size) then some false else t)
        (check_pairing-same embedded_verification_key proof (public_inputs_to_fields crypto inputs)
          (public_inputs_to_fields crypto other) same)

-- If the host multiplies a point alike by byte strings that it reads as the same element of the
-- field, a proof for which `verify_and_consume` returned true is consumed again in every state
-- reached from there, for anybody who authorizes, with the same nonce and the same inputs but for
-- other bytes of the same commitment, unless these were consumed too: `verify_and_consume` returns
-- true, and marks the hash of these bytes and nothing else.
pub consumed_again :
    (crypto : Crypto) (read : Bytes → ℕ)
    (reads : (p x y : Bytes) → read x ≡ read y → crypto.g1_mul p x ≡ crypto.g1_mul p y)
    (a b : Address) (proof : Bytes) (inputs : ScoreRangePublicInputs) (commitment nonce : Bytes)
    (env later : Env) (s : Verifier) {t u : Verifier}
    → read inputs.score_commitment ≡ read commitment
    → verify_and_consume crypto a proof inputs nonce env s ≡ ok true t
    → Reach crypto t u
    → later.authorized b ≡ true
    → let other : ScoreRangePublicInputs = record inputs { score_commitment = commitment } in
      let key = crypto.sha256 (preimage crypto proof other nonce) in
      u.consumed_proof key ≡ none
      → verify_and_consume crypto b proof other nonce later u
        ≡ ok true (record u { consumed_proof = put key true u.consumed_proof })
unfolding verify_and_consume consume
consumed_again crypto read reads a b proof inputs commitment nonce env later s {t} {u} same done r
      signed fresh =
    let other : ScoreRangePublicInputs = record inputs { score_commitment = commitment } in
    let h =
      ensured (Consumes crypto a proof inputs nonce env s)
        (verify_and_consume crypto a proof inputs nonce env s)
        (verify_and_consume-Consumes crypto a proof inputs nonce env s) done in
    let valid : groth16_verify crypto proof other ≡ some true =
      sym (groth16_verify-same crypto read reads proof inputs commitment same) ∙ h.0 in
    let held : is_some u.admin ≡ true = rw ((Reach-Later r).0 (rw h.5 h.1)) (rw h.5 h.1) in
    ground (arith, valid, held, h.2)
