-- ===== src/Host.antt =====
-- What the contracts use of the Soroban host: one invocation reads the ledger and the
-- authorizations, and either commits a new state with a result, or ends in a typed contract error
-- or a trap (a panic, a failed `require_auth`), after which the host discards every write.
use mathlib.Core.Path.{subst}
use stellar_did_credit.Base.{Bool, List, Option, String, if◌then◌else◌, none, refl, some, ℕ, ◌≡◌}

-- Addresses and 32-byte hashes are only compared, so they are numbers.
abbrev pub Address : Type 0
Address = ℕ

abbrev pub Hash : Type 0
Hash = ℕ

abbrev pub Symbol : Type 0
Symbol = String

pub record Env : Type 0 where
  -- `env.ledger().sequence()`
  pub sequence : ℕ
  -- `env.ledger().timestamp()`, in Unix seconds
  pub timestamp : ℕ
  -- whether `require_auth` succeeds for an address
  pub authorized : Address → Bool
  -- the bytes of `Address::to_string`
  pub strkey : Address → List ℕ
  -- `env.current_contract_address()`
  pub current_contract : Address

-- The end of an invocation that returns `A` over a contract with errors `E` and state `S`.
pub data Outcome (E S A : Type 0) : Type 0 where
  ok : A → S → Outcome E S A
  err : E → Outcome E S A
  trap : Outcome E S A

abbrev pub Call : Type 0 → Type 0 → Type 0 → Type 0
Call E S A = Env → S → Outcome E S A

module _ {E S : Type 0} where
  infixl 5 ◌>>=◌ ◌>>◌
  abbrev pub ◌>>=◌ : {A B : Type 0} → Call E S A → (A → Call E S B) → Call E S B
  ◌>>=◌ m f env s = elim (m env s) [ ok a s' ↦ f a env s' | err e ↦ err e | trap ↦ trap ]

  abbrev pub ◌>>◌ : {A B : Type 0} → Call E S A → Call E S B → Call E S B
  m >> k = m >>= λ _. k

  abbrev pub pure : {A : Type 0} → A → Call E S A
  pure a env s = ok a s

  -- `return Err(e)`
  abbrev pub fail : {A : Type 0} → E → Call E S A
  fail e env s = err e

  abbrev pub panic : {A : Type 0} → Call E S A
  panic env s = trap

  abbrev pub gets : {A : Type 0} → (S → A) → Call E S A
  gets f env s = ok (f s) s

  abbrev pub asks : {A : Type 0} → (Env → A) → Call E S A
  asks f env s = ok (f env) s

  abbrev pub modify : (S → S) → Call E S (Unit {0})
  modify f env s = ok tt (f s)

  -- `if test { return Err(e) }`
  abbrev pub fail_if : Bool → E → Call E S (Unit {0})
  fail_if b e env s = if b then err e else ok tt s

  -- `address.require_auth()`
  abbrev pub require_auth : Address → Call E S (Unit {0})
  require_auth a env s = if env.authorized a then ok tt s else trap

  -- `option.expect(..)`, `option.unwrap()`
  abbrev pub expect : {A : Type 0} → Option A → Call E S A
  expect none env s = trap
  expect (some a) env s = ok a s

  -- `option.ok_or(e)?`
  abbrev pub ok_or : {A : Type 0} → Option A → E → Call E S A
  ok_or none e env s = err e
  ok_or (some a) e env s = ok a s

  -- The state that the host keeps after an invocation.
  abbrev pub committed : {A : Type 0} → S → Outcome E S A → S
  committed s (ok a s') = s'
  committed s (err e) = s
  committed s trap = s

-- `P` holds of the result and the new state, if the invocation succeeds.
abbrev pub Ensures {ℓ} : {E S A : Type 0} → (A → S → Type ℓ) → Outcome E S A → Type ℓ
Ensures P (ok a s) = P a s
Ensures P (err e) = Unit
Ensures P trap = Unit

pub ensured {ℓ} :
    {E S A : Type 0} (P : A → S → Type ℓ) (o : Outcome E S A) {a : A} {s : S}
    → Ensures P o
    → o ≡ ok a s
    → P a s
ensured P o h e = subst (Ensures P) e h

pub Ensures-imp {ℓ κ} :
    {E S A : Type 0} {P : S → Type ℓ} {Q : S → Type κ}
    → ((s : S) → P s → Q s)
    → (o : Outcome E S A) → Ensures (λ _. P) o
    → Ensures (λ _. Q) o
Ensures-imp f (ok a s) h = f s h
Ensures-imp f (err e) h = tt
Ensures-imp f trap h = tt

pub Ensures-all {ℓ} :
    {E S A : Type 0} {P : A → S → Type ℓ}
    → ((a : A) (s : S) → P a s)
    → (o : Outcome E S A) → Ensures P o
Ensures-all f (ok a s) = f a s
Ensures-all f (err e) = tt
Ensures-all f trap = tt

pub Ensures-both {ℓ κ μ} :
    {E S A : Type 0} {P : S → Type ℓ} {Q : S → Type κ} {R : S → Type μ}
    → ((s : S) → P s → Q s → R s)
    → (o : Outcome E S A) → Ensures (λ _. P) o
    → Ensures (λ _. Q) o
    → Ensures (λ _. R) o
Ensures-both f (ok a s) h k = f s h k
Ensures-both f (err e) h k = tt
Ensures-both f trap h k = tt

-- The rule for the steps of a `do` block.
module _ {ℓ} {E S A B : Type 0} (P : B → S → Type ℓ) where
  pub Ensures-bind :
      (m : Call E S A) (f : A → Call E S B) (env : Env) (s : S)
      → Ensures (λ a t. Ensures P (f a env t)) (m env s)
      → Ensures P ((m >>= f) env s)
  Ensures-bind m f env s h = after (m env s) h
    where
      after :
          (o : Outcome E S A)
          → Ensures (λ a t. Ensures P (f a env t)) o
          → Ensures P (elim o [ ok a s' ↦ f a env s' | err e ↦ err e | trap ↦ trap ])
      after (ok a t) h = h
      after (err e) h = tt
      after trap h = tt

-- To show what a success ensures, its equation may be used.
pub Ensures-eq {ℓ} :
    {E S A : Type 0} {P : A → S → Type ℓ} (o : Outcome E S A)
    → ((a : A) (s : S) → o ≡ ok a s → P a s)
    → Ensures P o
Ensures-eq (ok a s) f = f a s refl
Ensures-eq (err e) f = tt
Ensures-eq trap f = tt

pub Ensures-map {ℓ κ} :
    {E S A : Type 0} {P : A → S → Type ℓ} {Q : A → S → Type κ}
    → ((a : A) (s : S) → P a s → Q a s)
    → (o : Outcome E S A) → Ensures P o
    → Ensures Q o
Ensures-map f (ok a s) h = f a s h
Ensures-map f (err e) h = tt
Ensures-map f trap h = tt

-- The invocation succeeds.
abbrev pub IsOk : {E S A : Type 0} → Outcome E S A → Type 0
IsOk (ok a s) = Unit
IsOk (err e) = ⊥
IsOk trap = ⊥

pub IsOk-Ensures {ℓ} :
    {E S : Type 0} {P : S → Type ℓ} (o : Outcome E S (Unit {0}))
    → IsOk o
    → Ensures (λ _. P) o
    → (s : S) × (o ≡ ok tt s) × P s
IsOk-Ensures (ok a s) i h = (s, refl, h)
IsOk-Ensures (err e) i h = absurd i
IsOk-Ensures trap i h = absurd i

pub IsOk-result {ℓ} :
    {E S A : Type 0} (P : A → S → Type ℓ) (o : Outcome E S A)
    → IsOk o
    → Ensures P o
    → (a : A) × (s : S) × (o ≡ ok a s) × P a s
IsOk-result P (ok a s) i h = (a, s, refl, h)
IsOk-result P (err e) i h = absurd i
IsOk-result P trap i h = absurd i

pub IsOk-bind :
    {E S A B : Type 0} (m : Call E S A) (f : A → Call E S B) (env : Env) (s : S)
    → IsOk (m env s)
    → Ensures (λ a t. IsOk (f a env t)) (m env s)
    → IsOk ((m >>= f) env s)
IsOk-bind {E} {S} {A} m f env s i h = after (m env s) i h
  where
    after :
        (o : Outcome E S A)
        → IsOk o
        → Ensures (λ a t. IsOk (f a env t)) o
        → IsOk (elim o [ ok a s' ↦ f a env s' | err e ↦ err e | trap ↦ trap ])
    after (ok a t) i h = h
    after (err e) i h = i
    after trap i h = i
