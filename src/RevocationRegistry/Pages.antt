-- ===== src/RevocationRegistry/Pages.antt =====
-- `list_revoked` returns a page of the issuer's list.
use stellar_did_credit.RevocationRegistry.Effects.{list_of}
use mathlib.Core.List.{append-nil, append_assoc}
use native.Mathlib.Decide.{dec_le}
use native.Mathlib.Numerals.{add-one}
use stellar_did_credit.Base.{
  Bool-cases, List, [], ap, arith, drop, get_elem?, inl, inr, leb, length, min, push_back, refl,
  some, suc, sym, take, u32_max, zero, ℕ, ◌++◌, ◌+◌, ◌-◌, ◌<◌, ◌∙◌, ◌∷◌, ◌≡◌, ◌≤◌,
}
use stellar_did_credit.Host.{Address, Env, Hash, ok}
use stellar_did_credit.RevocationRegistry.State.{Registry}
use stellar_did_credit.RevocationRegistry.Queries.{copy_range, list_revoked}

-- The entry at a position in range is where the rest of the list begins.
drop-get_elem? :
    {A : Type 0} (i : ℕ) (xs : List A)
    → i < length xs
    → (x : A) × (get_elem? xs i ≡ some x) × (drop i xs ≡ x ∷ drop (suc i) xs)
drop-get_elem? i [] h = absurd (omega arith)
drop-get_elem? zero (x ∷ xs) h = (x, refl, refl)
drop-get_elem? (suc i) (x ∷ xs) h = drop-get_elem? i xs (omega arith)

copy_range_lem :
    (list : List Hash) (rounds i : ℕ) (result : List Hash) (env : Env) (s : Registry)
    → i + rounds ≤ length list
    → copy_range list rounds i result env s ≡ ok (result ++ take rounds (drop i list)) s
unfolding copy_range
copy_range_lem list zero i result env s h = rw append-nil
copy_range_lem list (suc n) i result env s h =
    let (x, at, rest) = drop-get_elem? i list (omega arith) in
    rw (at, rest, copy_range_lem list n (i + 1) (push_back result x) env s (omega arith), add-one)
      (rw append_assoc)

take_all : {A : Type 0} (n : ℕ) (xs : List A) → length xs ≤ n → take n xs ≡ xs
take_all zero [] h = refl
take_all zero (x ∷ xs) h = absurd (omega arith)
take_all (suc n) [] h = refl
take_all (suc n) (x ∷ xs) h = ap (◌∷◌ x) (take_all n xs (omega arith))

take_nil : {A : Type 0} (n : ℕ) → take {A = A} n [] ≡ []
take_nil zero = refl
take_nil (suc n) = refl

length-drop : {A : Type 0} (n : ℕ) (xs : List A) → length (drop n xs) ≡ length xs - n
length-drop zero xs = omega arith
length-drop (suc n) [] = omega arith
length-drop (suc n) (x ∷ xs) = omega (arith, length-drop n xs)

drop_all : {A : Type 0} (n : ℕ) (xs : List A) → length xs ≤ n → drop n xs ≡ []
drop_all zero [] h = refl
drop_all zero (x ∷ xs) h = absurd (omega arith)
drop_all (suc n) [] h = refl
drop_all (suc n) (x ∷ xs) h = drop_all n xs (omega arith)

-- Cutting the page at the end of the list does not change it.
take_clipped :
    {A : Type 0} (cursor limit : ℕ) (xs : List A)
    → cursor ≤ length xs
    → take (min (cursor + limit) (length xs) - cursor) (drop cursor xs)
      ≡ take limit (drop cursor xs)
take_clipped cursor limit xs h = elim (dec_le (cursor + limit) (length xs)) [
  | yes p ↦
      let e : min (cursor + limit) (length xs) - cursor ≡ limit = omega arith in
      ap (λ n. take n (drop cursor xs)) e
  | no p ↦
      take_all _ (drop cursor xs) (omega (arith, length-drop cursor xs))
      ∙ sym (take_all limit (drop cursor xs) (omega (arith, length-drop cursor xs)))
]

-- If `cursor + limit` fits a `u32`, the page is the stretch of the list of the issuer that begins
-- at `cursor` and holds at most `limit` hashes, empty past the end, and the state is unchanged.
pub list_revoked_page :
    (issuer : Address) (cursor limit : ℕ) (env : Env) (s : Registry)
    → cursor + limit ≤ u32_max
    → list_revoked issuer cursor limit env s ≡ ok (take limit (drop cursor (list_of s issuer))) s
unfolding list_revoked
list_revoked_page issuer cursor limit env s fits =
    elim (Bool-cases (leb (length (list_of s issuer)) cursor)) [
      | inl past ↦ ground (arith, drop_all cursor (list_of s issuer), take_nil {A = Hash} limit)
      | inr within ↦ ground (
        arith,
        copy_range_lem (list_of s issuer)
            (min (cursor + limit) (length (list_of s issuer)) - cursor) cursor [] env s,
        take_clipped cursor limit (list_of s issuer),
      )
    ]
