-- ===== src/CreditOracle/DisputeIndex.antt =====
-- The index of disputed keys: what `list_disputes` lists.
use mathlib.Core.List.{append-nil, append_assoc}
use mathlib.Core.Path.{subst₂}
use stellar_did_credit.CreditOracle.Steps.{Reach, here, invocation, next, run}
use stellar_did_credit.CreditOracle.State.{Oracle}
use stellar_did_credit.CreditOracle.Disputes.{get_dispute, list_disputes, push_disputes}
use stellar_did_credit.Base.{
  List, Map, Option, Option-cases, [], ap, arith, contains, contains-push_back, get_elem?, inl, inr,
  is_distinct, is_distinct-push_back, is_some, nat_eq, none, pair_eq, push_back, put, refl, some,
  string_eq, suc, sym, true, unwrap_or, zero, ℕ, ◌++◌, ◌∙◌, ◌∷◌, ◌≡◌,
}
use stellar_did_credit.Host.{Address, Env, Symbol, ensured}
use stellar_did_credit.CreditOracle.Types.{DisputeRecord}
use stellar_did_credit.CreditOracle.DisputeMoves.{Changes, indexed, run-Changes}

abbrev pub keys_of : Map Address (List Symbol) → Address → List Symbol
keys_of index u = unwrap_or (index u) []

-- The index of a subject repeats no key, and holds exactly those with a dispute.
abbrev pub HasDisputes : Map (Address × Symbol) DisputeRecord → Map Address (List Symbol) → Type 0
HasDisputes dispute index =
    (u : Address)
    → (is_distinct (keys_of index u) ≡ true)
      × ((k : Symbol) → contains k (keys_of index u) ≡ is_some (dispute (u, k)))

HasDisputes-filed :
    (u : Address) (k : Symbol) (d : DisputeRecord) (dispute : Map (Address × Symbol) DisputeRecord)
    (index : Map Address (List Symbol))
    → HasDisputes dispute index
    → HasDisputes (put (u, k) d dispute) (indexed u k index)
HasDisputes-filed u k d dispute index h v = (
  ground (arith, h v, is_distinct-push_back k (keys_of index u)),
  λ j. ground (
    arith,
    (h v).1 j,
    h u,
    contains-push_back j k (keys_of index u),
    nat_eq.same_iff v u,
    string_eq.same_iff j k,
    string_eq.same_iff k j,
  ),
)

HasDisputes-closed :
    (u : Address) (k : Symbol) (d : DisputeRecord) (dispute : Map (Address × Symbol) DisputeRecord)
    (index : Map Address (List Symbol))
    → is_some (dispute (u, k)) ≡ true
    → HasDisputes dispute index
    → HasDisputes (put (u, k) d dispute) index
HasDisputes-closed u k d dispute index present h v =
    ((h v).0, λ j. ground (arith, (h v).1 j, nat_eq.same_iff v u, string_eq.same_iff j k))

Changes-HasDisputes :
    (env : Env) (s t : Oracle)
    → Changes env s t
    → HasDisputes s.dispute s.dispute_index
    → HasDisputes t.dispute t.dispute_index
Changes-HasDisputes env s t (inl (d, i)) h = subst₂ HasDisputes (sym d) (sym i) h
Changes-HasDisputes env s t (inr (inl (u, k, r, d, i, _))) h =
    subst₂ HasDisputes (sym d) (sym i) (HasDisputes-filed u k r s.dispute s.dispute_index h)
Changes-HasDisputes env s t (inr (inr (u, k, r, d, i, present, _))) h =
    subst₂ HasDisputes (sym d) (sym i)
      (HasDisputes-closed u k r s.dispute s.dispute_index present h)

-- In every state that is reached from one where the index of each subject repeats no key and
-- holds exactly the keys with a dispute, it still does.
pub Reach-HasDisputes :
    {s t : Oracle}
    → Reach s t
    → HasDisputes s.dispute s.dispute_index
    → HasDisputes t.dispute t.dispute_index
Reach-HasDisputes here h = h
Reach-HasDisputes {s} {t} (next {t = u} r (invocation client req env e)) h =
    Changes-HasDisputes env u t (ensured _ (run client req env u) (run-Changes client req env u) e)
      (Reach-HasDisputes r h)

-- What the loop adds for a key.
abbrev pub entry : Option DisputeRecord → List DisputeRecord
entry none = []
entry (some d) = d ∷ []

abbrev pub found : Oracle → Address → List Symbol → List DisputeRecord
found s u [] = []
found s u (k ∷ ks) = entry (s.dispute (u, k)) ++ found s u ks

push_disputes_lem :
    (s : Oracle) (u : Address) (ks : List Symbol) (acc : List DisputeRecord)
    → push_disputes s u ks acc ≡ acc ++ found s u ks
unfolding push_disputes
push_disputes_lem s u [] acc = rw append-nil
push_disputes_lem s u (k ∷ ks) acc = elim (Option-cases (s.dispute (u, k))) [
  | inl e ↦ rw e (push_disputes_lem s u ks acc)
  | inr (d, e) ↦ rw (e, push_disputes_lem s u ks (push_back acc d)) (rw append_assoc)
]

-- The record at a key of the index.
abbrev pub at_key : Oracle → Address → Option Symbol → Option DisputeRecord
at_key s u none = none
at_key s u (some k) = get_dispute s u k

found_at :
    (s : Oracle) (u : Address) (ks : List Symbol) (i : ℕ)
    → ((k : Symbol) → contains k ks ≡ true → is_some (s.dispute (u, k)) ≡ true)
    → get_elem? (found s u ks) i ≡ at_key s u (get_elem? ks i)
unfolding get_dispute
found_at s u [] i h = refl
found_at s u (k ∷ ks) zero h = elim (Option-cases (s.dispute (u, k))) [
  | inl e ↦ ground (arith, h k, string_eq.same_iff k k)
  | inr (d, e) ↦ rw e
]
found_at s u (k ∷ ks) (suc i) h = elim (Option-cases (s.dispute (u, k))) [
  | inl e ↦ ground (arith, h k, string_eq.same_iff k k)
  | inr (d, e) ↦ rw e (found_at s u ks i (λ j m. h j (ground arith)))
]

-- On a contract whose index of disputed keys is exact, `list_disputes` lists, for each key of the
-- index of the subject and in its order, the record that `get_dispute` returns.
pub list_disputes_at :
    (s : Oracle) (u : Address)
    → HasDisputes s.dispute s.dispute_index
    → (i : ℕ)
    → get_elem? (list_disputes s u) i ≡ at_key s u (get_elem? (keys_of s.dispute_index u) i)
unfolding list_disputes
list_disputes_at s u h i =
    ap (λ xs. get_elem? xs i) (push_disputes_lem s u (keys_of s.dispute_index u) [])
    ∙ found_at s u (keys_of s.dispute_index u) i (λ k e. sym ((h u).1 k) ∙ e)
