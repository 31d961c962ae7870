-- ===== src/ScoreRangeVerifier/Replay.antt =====
-- A proof of contracts/score-range-verifier/src/lib.rs is consumed at most once.
use stellar_did_credit.Base.{
  Bool, Bool-cases, Map, Option-cases, arith, false, if◌then◌else◌, inl, inr, is_some, length,
  list_eq, nat_eq, put, put_same, refl, some, true, ℕ, ◌==◌, ◌∙◌, ◌≡◌,
}
use stellar_did_credit.Host.{
  Address, Ensures, Ensures-bind, Ensures-map, Env, ensured, err, ok, pure,
}
use stellar_did_credit.ScoreRangeVerifier.State.{
  Bytes, Crypto, ScoreRangePublicInputs, Verifier, proof_already_consumed, proof_size,
}
use stellar_did_credit.ScoreRangeVerifier.Encoding.{preimage}
use stellar_did_credit.ScoreRangeVerifier.Groth16.{groth16_verify}
use stellar_did_credit.ScoreRangeVerifier.Contract.{
  Reach, consume_one, here, initialize, initialize_with, invocation, next, run, verify_and_consume,
}

-- The administrator and the marks of consumed proofs stay.
abbrev pub Later : Verifier → Verifier → Type 0
Later s t =
    (is_some s.admin ≡ true → t.admin ≡ s.admin)
    × ((key : Bytes)
        → is_some (s.consumed_proof key) ≡ true
        → is_some (t.consumed_proof key) ≡ true)

initialize-Later :
    (a : Address) (h : Bytes) (v : ℕ) (env : Env) (s : Verifier)
    → Ensures (λ _. Later s) (initialize a h v env s)
unfolding initialize
initialize-Later a h v env s = ground arith

-- A consumption that returned: the pairing check gave its result, and a valid proof is marked.
abbrev pub Consumes :
    Crypto
    → Address
    → Bytes
    → ScoreRangePublicInputs
    → Bytes
    → Env
    → Verifier
    → Bool
    → Verifier
    → Type 0
Consumes crypto a proof inputs nonce env s valid t =
    let key = crypto.sha256 (preimage crypto proof inputs nonce) in
    (groth16_verify crypto proof inputs ≡ some valid)
    × (is_some s.admin ≡ true)
    × (length proof ≡ proof_size)
    × (is_some (s.consumed_proof key) ≡ false)
    × (env.authorized a ≡ true)
    × (t ≡ (if valid then record s { consumed_proof = put key true s.consumed_proof } else s))

pub verify_and_consume-Consumes :
    (crypto : Crypto) (a : Address) (proof : Bytes) (inputs : ScoreRangePublicInputs)
    (nonce : Bytes) (env : Env) (s : Verifier)
    → Ensures
        (Consumes crypto a proof inputs nonce env s)
        (verify_and_consume crypto a proof inputs nonce env s)
unfolding verify_and_consume
verify_and_consume-Consumes crypto a proof inputs nonce env s =
    elim (Option-cases (groth16_verify crypto proof inputs)) [
      | inl e ↦ ground arith
      | inr (true, e) ↦ ground arith
      | inr (false, e) ↦ ground arith
    ]

put-kept :
    (k key : Bytes) (m : Map Bytes Bool)
    → is_some (m key) ≡ true
    → is_some (put k true m key) ≡ true
put-kept k key m h = elim (Bool-cases (key == k)) [ inl e ↦ rw e refl | inr e ↦ rw e h ]

consume-Later :
    (crypto : Crypto) (a : Address) (proof : Bytes) (inputs : ScoreRangePublicInputs)
    (nonce : Bytes) (env : Env) (s : Verifier)
    → Ensures (λ _. Later s) (verify_and_consume crypto a proof inputs nonce env s)
consume-Later crypto a proof inputs nonce env s =
    Ensures-map later (verify_and_consume crypto a proof inputs nonce env s)
      (verify_and_consume-Consumes crypto a proof inputs nonce env s)
  where
    later :
        (valid : Bool) (t : Verifier)
        → Consumes crypto a proof inputs nonce env s valid t
        → Later s t
    later true t h = rw h.5 (
      (λ _. refl),
      λ key k. put-kept (crypto.sha256 (preimage crypto proof inputs nonce)) key s.consumed_proof k,
    )
    later false t h = rw h.5 ((λ _. refl), λ key k. k)

pub Reach-Later : {crypto : Crypto} {s t : Verifier} → Reach crypto s t → Later s t
unfolding run
Reach-Later here = ((λ _. refl), λ key k. k)
Reach-Later {crypto} {s} {t} (next {t = u} r (invocation (initialize_with a h v) env e)) =
    let first = Reach-Later r in
    let last = ensured (λ _. Later u) (initialize a h v env u) (initialize-Later a h v env u) e in
    ((λ k. last.0 (rw (first.0 k) k) ∙ first.0 k), λ key k. last.1 key (first.1 key k))
Reach-Later {crypto} {s} {t}
      (next {t = u} r (invocation (consume_one a proof inputs nonce) env e)) =
    let first = Reach-Later r in
    let last =
      ensured (λ _. Later u) (run crypto (consume_one a proof inputs nonce) env u)
        (Ensures-bind (λ _. Later u) (verify_and_consume crypto a proof inputs nonce) (λ _. pure tt)
          env u (consume-Later crypto a proof inputs nonce env u))
        e in
    ((λ k. last.0 (rw (first.0 k) k) ∙ first.0 k), λ key k. last.1 key (first.1 key k))

-- If `verify_and_consume` returned true, the pairing check held and the consumer authorized it,
-- and in every state reached from there the same proof and nonce with the same public inputs, byte
-- for byte, are refused with `ProofAlreadyConsumed` for every consumer who authorizes.
pub consumed_once :
    (crypto : Crypto) (a b : Address) (proof : Bytes) (inputs : ScoreRangePublicInputs)
    (nonce : Bytes) (env later : Env) (s : Verifier) {t u : Verifier}
    → verify_and_consume crypto a proof inputs nonce env s ≡ ok true t
    → Reach crypto t u
    → later.authorized b ≡ true
    → (groth16_verify crypto proof inputs ≡ some true)
      × (env.authorized a ≡ true)
      × (verify_and_consume crypto b proof inputs nonce later u ≡ err proof_already_consumed)
unfolding verify_and_consume
consumed_once crypto a b proof inputs nonce env later s {t} {u} done r signed =
    let key = crypto.sha256 (preimage crypto proof inputs nonce) in
    let h =
      ensured (Consumes crypto a proof inputs nonce env s)
        (verify_and_consume crypto a proof inputs nonce env s)
        (verify_and_consume-Consumes crypto a proof inputs nonce env s) done in
    let marked : is_some (u.consumed_proof key) ≡ true =
      (Reach-Later r).1 key (rw h.5 (rw (put_same key true s.consumed_proof) refl)) in
    let held : is_some u.admin ≡ true = rw ((Reach-Later r).0 (rw h.5 h.1)) (rw h.5 h.1) in
    (h.0, h.4, ground (arith, marked, held))
