-- ===== src/CreditOracle/Index.antt =====
-- The indexes of feeders and lenders: no repetition, and no trusted address is missing.
use stellar_did_credit.CreditOracle.Frame.{feeders, lenders, run-Unchanged}
use mathlib.Core.Path.{subst₂}
use stellar_did_credit.Base.{
  Bool, List, Map, Option, [], arith, contains, contains-push_back, false, if◌then◌else◌, inl, inr,
  is_distinct, is_distinct-push_back, nat_beq_iff, nat_eq, push_back, put, refl, some, sym, true,
  unwrap_or, ◌≡◌, ◌⊎◌,
}
use stellar_did_credit.Host.{Address, Ensures, Ensures-both, Ensures-imp, Env, ensured}
use stellar_did_credit.CreditOracle.Types.{IdentityClient}
use stellar_did_credit.CreditOracle.State.{Oracle, deployed}
use stellar_did_credit.CreditOracle.Registration.{
  deregister_feeder, deregister_lender, register_feeder, register_lender,
}
use stellar_did_credit.CreditOracle.Steps.{
  Reach, Request, add_feeder, add_lender, drop_feeder, drop_lender, here, invocation, next, run,
}

abbrev pub flag_of : Map Address Bool → Address → Bool
flag_of trusted a = unwrap_or (trusted a) false

-- An index repeats no address and holds every address with a flag.
abbrev pub IsIndex : Option (List Address) → Map Address Bool → Type 0
IsIndex index trusted =
    (is_distinct (unwrap_or index []) ≡ true)
    × ((a : Address) → flag_of trusted a ≡ true → contains a (unwrap_or index []) ≡ true)

pub record HasIndexes (s : Oracle) : Type 0 where
  pub of_feeders : IsIndex s.feeders_index s.trusted_feeder
  pub of_lenders : IsIndex s.lenders_index s.trusted_lender

-- The index once an address was registered.
abbrev pub registered : Address → Option (List Address) → Option (List Address)
registered f index =
    if contains f (unwrap_or index []) then index else some (push_back (unwrap_or index []) f)

IsIndex-registered :
    (f : Address) (index : Option (List Address)) (trusted : Map Address Bool)
    → IsIndex index trusted
    → IsIndex (registered f index) (put f true trusted)
IsIndex-registered f index trusted h = (
  ground (arith, h.0, is_distinct-push_back f (unwrap_or index [])),
  λ a e.
      ground (
        arith,
        h.1 a,
        contains-push_back a f (unwrap_or index []),
        nat_beq_iff f a,
        nat_beq_iff a f,
      ),
)

IsIndex-dropped :
    (f : Address) (index : Option (List Address)) (trusted : Map Address Bool)
    → IsIndex index trusted
    → IsIndex index (put f false trusted)
IsIndex-dropped f index trusted h = (h.0, λ a e. ground (arith, h.1 a))

-- How a request changes an index and its flags.
abbrev pub Changes :
    Option (List Address) → Map Address Bool → Option (List Address) → Map Address Bool → Type 0
Changes index trusted index' trusted' =
    ((index' ≡ index) × (trusted' ≡ trusted))
    ⊎ ((f : Address) × (index' ≡ registered f index) × (trusted' ≡ put f true trusted))
    ⊎ ((f : Address) × (index' ≡ index) × (trusted' ≡ put f false trusted))

pub Changes-IsIndex :
    (index : Option (List Address)) (trusted : Map Address Bool) (index' : Option (List Address))
    (trusted' : Map Address Bool)
    → Changes index trusted index' trusted'
    → IsIndex index trusted
    → IsIndex index' trusted'
Changes-IsIndex index trusted index' trusted' (inl (i, t)) h = subst₂ IsIndex (sym i) (sym t) h
Changes-IsIndex index trusted index' trusted' (inr (inl (f, i, t))) h =
    subst₂ IsIndex (sym i) (sym t) (IsIndex-registered f index trusted h)
Changes-IsIndex index trusted index' trusted' (inr (inr (f, i, t))) h =
    subst₂ IsIndex (sym i) (sym t) (IsIndex-dropped f index trusted h)

abbrev ChangesIndexes : Oracle → Oracle → Type 0
ChangesIndexes s t =
    Changes s.feeders_index s.trusted_feeder t.feeders_index t.trusted_feeder
    × Changes s.lenders_index s.trusted_lender t.lenders_index t.trusted_lender

pub register_feeder_lem :
    (a f : Address) (env : Env) (s : Oracle)
    → Ensures
        (λ _ t.
          (t.feeders_index ≡ registered f s.feeders_index)
          × (t.trusted_feeder ≡ put f true s.trusted_feeder))
        (register_feeder a f env s)
unfolding register_feeder
register_feeder_lem a f env s = ground arith

pub deregister_feeder_lem :
    (a f : Address) (env : Env) (s : Oracle)
    → Ensures
        (λ _ t.
          (t.feeders_index ≡ s.feeders_index) × (t.trusted_feeder ≡ put f false s.trusted_feeder))
        (deregister_feeder a f env s)
unfolding deregister_feeder
deregister_feeder_lem a f env s = ground arith

pub register_lender_lem :
    (a f : Address) (env : Env) (s : Oracle)
    → Ensures
        (λ _ t.
          (t.lenders_index ≡ registered f s.lenders_index)
          × (t.trusted_lender ≡ put f true s.trusted_lender))
        (register_lender a f env s)
unfolding register_lender
register_lender_lem a f env s = ground arith

pub deregister_lender_lem :
    (a f : Address) (env : Env) (s : Oracle)
    → Ensures
        (λ _ t.
          (t.lenders_index ≡ s.lenders_index) × (t.trusted_lender ≡ put f false s.trusted_lender))
        (deregister_lender a f env s)
unfolding deregister_lender
deregister_lender_lem a f env s = ground arith

run-ChangesIndexes :
    (client : IdentityClient) (req : Request) (env : Env) (s : Oracle)
    → Ensures (λ _. ChangesIndexes s) (run client req env s)
unfolding run
run-ChangesIndexes client (add_feeder a f) env s =
    Ensures-both (λ t e frame. (inr (inl (f, e.0, e.1)), inl (frame lenders refl)))
      (register_feeder a f env s) (register_feeder_lem a f env s)
      (run-Unchanged client (add_feeder a f) env s)
run-ChangesIndexes client (drop_feeder a f) env s =
    Ensures-both (λ t e frame. (inr (inr (f, e.0, e.1)), inl (frame lenders refl)))
      (deregister_feeder a f env s) (deregister_feeder_lem a f env s)
      (run-Unchanged client (drop_feeder a f) env s)
run-ChangesIndexes client (add_lender a f) env s =
    Ensures-both (λ t e frame. (inl (frame feeders refl), inr (inl (f, e.0, e.1))))
      (register_lender a f env s) (register_lender_lem a f env s)
      (run-Unchanged client (add_lender a f) env s)
run-ChangesIndexes client (drop_lender a f) env s =
    Ensures-both (λ t e frame. (inl (frame feeders refl), inr (inr (f, e.0, e.1))))
      (deregister_lender a f env s) (deregister_lender_lem a f env s)
      (run-Unchanged client (drop_lender a f) env s)
run-ChangesIndexes client req env s =
    Ensures-imp (λ t frame. (inl (frame feeders refl), inl (frame lenders refl)))
      (run client req env s) (run-Unchanged client req env s)

run-HasIndexes :
    (client : IdentityClient) (req : Request) (env : Env) (s : Oracle)
    → HasIndexes s
    → Ensures (λ _. HasIndexes) (run client req env s)
run-HasIndexes client req env s h =
    Ensures-imp
      (λ t c. record {
        of_feeders =
            Changes-IsIndex s.feeders_index s.trusted_feeder t.feeders_index t.trusted_feeder c.0
              h.of_feeders;
        of_lenders =
            Changes-IsIndex s.lenders_index s.trusted_lender t.lenders_index t.trusted_lender c.1
              h.of_lenders;
      })
      (run client req env s) (run-ChangesIndexes client req env s)

-- In every state that is reached from one where the indexes of feeders and lenders repeat no
-- address and hold every address whose flag is set, they still do.
pub Reach-HasIndexes : {s t : Oracle} → Reach s t → HasIndexes s → HasIndexes t
Reach-HasIndexes here h = h
Reach-HasIndexes (next {t = u} r (invocation client req env e)) h =
    ensured _ (run client req env u) (run-HasIndexes client req env u (Reach-HasIndexes r h)) e

pub deployed-HasIndexes : HasIndexes deployed
deployed-HasIndexes = ground arith
