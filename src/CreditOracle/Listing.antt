-- ===== src/CreditOracle/Listing.antt =====
-- What `list_feeders` and `list_lenders` return.
use stellar_did_credit.Base.{
  Bool, List, Map, Option, [], ap, arith, contains, contains-push_back, false, if◌then◌else◌, inl,
  inr, is_distinct, is_distinct-push_back, nat_beq_iff, nat_eq, not, push_back, put, refl, some,
  true, unwrap_or, ◌&&◌, ◌==◌, ◌||◌, ◌∷◌, ◌≡◌,
}
use stellar_did_credit.Host.{Address, Ensures, Ensures-imp, Env, IsOk-Ensures, ok}
use stellar_did_credit.CreditOracle.State.{Oracle}
use stellar_did_credit.CreditOracle.Registration.{
  deregister_feeder, list_feeders, list_lenders, push_active, register_feeder,
}
use stellar_did_credit.CreditOracle.Index.{
  Changes-IsIndex, HasIndexes, IsIndex, deregister_feeder_lem, flag_of, register_feeder_lem,
}

contains-push_active :
    (trusted : Map Address Bool) (a : Address) (index active : List Address)
    → contains a (push_active trusted index active)
      ≡ (contains a active || (contains a index && flag_of trusted a))
unfolding push_active
contains-push_active trusted a [] active = ground arith
contains-push_active trusted a (x ∷ xs) active = ground (
  arith,
  contains-push_active trusted a xs (if flag_of trusted x then push_back active x else active),
  contains-push_back a x active,
  nat_beq_iff x a,
)

-- No address occurs in both lists.
abbrev are_disjoint : List Address → List Address → Bool
are_disjoint [] ys = true
are_disjoint (x ∷ xs) ys = not (contains x ys) && are_disjoint xs ys

are_disjoint-push_back :
    (x : Address) (xs ys : List Address)
    → are_disjoint xs ys ≡ true
    → contains x xs ≡ false
    → are_disjoint xs (push_back ys x) ≡ true
are_disjoint-push_back x [] ys d n = refl
are_disjoint-push_back x (z ∷ zs) ys d n = ground (
  arith,
  are_disjoint-push_back x zs ys,
  contains-push_back z x ys,
  nat_beq_iff x z,
  nat_beq_iff z x,
)

is_distinct-push_active :
    (trusted : Map Address Bool) (index active : List Address)
    → is_distinct index ≡ true
    → is_distinct active ≡ true
    → are_disjoint index active ≡ true
    → is_distinct (push_active trusted index active) ≡ true
unfolding push_active
is_distinct-push_active trusted [] active d e j = e
is_distinct-push_active trusted (x ∷ xs) active d e j = ground (
  arith,
  is_distinct-push_active trusted xs (if flag_of trusted x then push_back active x else active),
  is_distinct-push_back x active,
  are_disjoint-push_back x xs active,
)

are_disjoint-nil : (xs : List Address) → are_disjoint xs [] ≡ true
are_disjoint-nil [] = refl
are_disjoint-nil (x ∷ xs) = are_disjoint-nil xs

-- The loop picks exactly the addresses whose flag is set, each once.
list_active_lem :
    (trusted : Map Address Bool) (index : Option (List Address)) (a : Address)
    → IsIndex index trusted
    → (contains a (push_active trusted (unwrap_or index []) []) ≡ flag_of trusted a)
      × (is_distinct (push_active trusted (unwrap_or index []) []) ≡ true)
list_active_lem trusted index a h =
    let l = unwrap_or index [] in
    (
      ground (arith, contains-push_active trusted a l [], h.1 a),
      is_distinct-push_active trusted l [] h.0 refl (are_disjoint-nil l),
    )

-- On a contract whose indexes repeat no address and miss no address with a flag, `list_feeders`
-- and `list_lenders` return exactly the addresses whose flag is set, each once.
pub list_registered :
    (s : Oracle) (a : Address)
    → HasIndexes s
    → (contains a (list_feeders s) ≡ flag_of s.trusted_feeder a)
      × (is_distinct (list_feeders s) ≡ true)
      × (contains a (list_lenders s) ≡ flag_of s.trusted_lender a)
      × (is_distinct (list_lenders s) ≡ true)
unfolding list_feeders list_lenders
list_registered s a h =
    let (f, df) = list_active_lem s.trusted_feeder s.feeders_index a h.of_feeders in
    let (l, dl) = list_active_lem s.trusted_lender s.lenders_index a h.of_lenders in (f, df, l, dl)

-- `after` is `before`, but for whether it holds `f`.
abbrev pub Lists : Bool → Address → List Address → List Address → Type 0
Lists held f before after =
    (b : Address) → contains b after ≡ (if f == b then held else contains b before)

-- A change of the flag of `f` that keeps the index changes what is listed only at `f`.
Lists-put :
    (held : Bool) (f : Address) (index index' : Option (List Address))
    (trusted trusted' : Map Address Bool)
    → IsIndex index trusted
    → IsIndex index' trusted'
    → trusted' ≡ put f held trusted
    → Lists held f
        (push_active trusted (unwrap_or index []) [])
        (push_active trusted' (unwrap_or index' []) [])
Lists-put held f index index' trusted trusted' h h' e b = ground (
  arith,
  list_active_lem trusted index b h,
  list_active_lem trusted' index' b h',
  ap (λ m. flag_of m b) e,
  nat_beq_iff f b,
  nat_beq_iff b f,
)

register_feeder-Lists :
    (a f : Address) (env : Env) (s : Oracle)
    → HasIndexes s
    → Ensures (λ _ t. Lists true f (list_feeders s) (list_feeders t)) (register_feeder a f env s)
unfolding list_feeders
register_feeder-Lists a f env s h =
    Ensures-imp
      (λ t e.
        Lists-put true f s.feeders_index t.feeders_index s.trusted_feeder t.trusted_feeder
          h.of_feeders
          (Changes-IsIndex s.feeders_index s.trusted_feeder t.feeders_index t.trusted_feeder
            (inr (inl (f, e.0, e.1))) h.of_feeders)
          e.1)
      (register_feeder a f env s) (register_feeder_lem a f env s)

deregister_feeder-Lists :
    (a f : Address) (env : Env) (s : Oracle)
    → HasIndexes s
    → Ensures (λ _ t. Lists false f (list_feeders s) (list_feeders t)) (deregister_feeder a f env s)
unfolding list_feeders
deregister_feeder-Lists a f env s h =
    Ensures-imp
      (λ t e.
        Lists-put false f s.feeders_index t.feeders_index s.trusted_feeder t.trusted_feeder
          h.of_feeders
          (Changes-IsIndex s.feeders_index s.trusted_feeder t.feeders_index t.trusted_feeder
            (inr (inr (f, e.0, e.1))) h.of_feeders)
          e.1)
      (deregister_feeder a f env s) (deregister_feeder_lem a f env s)

-- On a contract with exact indexes, a registration that the administrator authorized succeeds and
-- adds the feeder to what `list_feeders` returns, also after a deregistration, and changes nothing
-- else in it; a deregistration succeeds, takes it out and changes nothing else in it.
pub feeder-Lists :
    (a f : Address) (env : Env) (s : Oracle)
    → HasIndexes s
    → s.admin ≡ some a
    → env.authorized a ≡ true
    → ((t : Oracle) × (register_feeder a f env s ≡ ok tt t)
        × Lists true f (list_feeders s) (list_feeders t))
      × ((t : Oracle) × (deregister_feeder a f env s ≡ ok tt t)
          × Lists false f (list_feeders s) (list_feeders t))
feeder-Lists a f env s h e auth = (
  IsOk-Ensures (register_feeder a f env s) (unfold register_feeder in ground arith)
      (register_feeder-Lists a f env s h),
  IsOk-Ensures (deregister_feeder a f env s) (unfold deregister_feeder in ground arith)
      (deregister_feeder-Lists a f env s h),
)
