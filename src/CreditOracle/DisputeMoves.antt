-- ===== src/CreditOracle/DisputeMoves.antt =====
-- The life of a dispute, and the index that lists the disputes of a subject.
use stellar_did_credit.CreditOracle.Steps.{Request, flag, resolve, run}
use stellar_did_credit.CreditOracle.Frame.{disputes, run-Unchanged}
use stellar_did_credit.Base.{
  Bool, Bool-cases, List, Map, Option, Option-cases, String, [], arith, contains, false,
  if◌then◌else◌, inl, inr, is_some, nat_eq, pair_eq, push_back, put, put_same, refl, some,
  string_eq, true, unwrap_or, ◌&&◌, ◌==◌, ◌≡◌, ◌⊎◌,
}
use stellar_did_credit.Host.{Address, Ensures, Ensures-imp, Env, Symbol}
use stellar_did_credit.CreditOracle.Types.{
  DisputeRecord, IdentityClient, pending, rejected, resolved,
}
use stellar_did_credit.CreditOracle.State.{Oracle}
use stellar_did_credit.CreditOracle.Disputes.{
  flag_score_input, has_pending, is_input_key, resolve_dispute,
}
use stellar_did_credit.CreditOracle.Control.{IsAdmin}

-- How the dispute of a subject and a key may change.
abbrev pub Moves :
    Env → Oracle → Address → Symbol → Option DisputeRecord → Option DisputeRecord → Type 0
Moves env s u k before after =
    (after ≡ before)
    ⊎ ((d : DisputeRecord) × (after ≡ some d)
        × (has_pending before ≡ false)
        × (d.status ≡ pending)
        × (d.subject ≡ u)
        × (d.input_key ≡ k)
        × (d.filed_at_ledger ≡ env.sequence)
        × (is_input_key k ≡ true)
        × (env.authorized u ≡ true))
    ⊎ ((d : DisputeRecord) × (before ≡ some d)
        × (d.status ≡ pending)
        × (b : Bool) × (after ≡ some (record d { status = if b then resolved else rejected }))
        × (a : Address) × IsAdmin env s a)

-- The record that a subject files.
abbrev pub filed_by : Address → Symbol → String → Env → DisputeRecord
filed_by u k reason env = record {
  subject = u;
  input_key = k;
  reason = reason;
  filed_at_ledger = env.sequence;
  status = pending;
}

-- The record that the administrator leaves.
abbrev pub closed_as : Bool → DisputeRecord → DisputeRecord
closed_as accepted d = record d { status = if accepted then resolved else rejected }

-- The index once a key was disputed.
abbrev pub indexed : Address → Symbol → Map Address (List Symbol) → Map Address (List Symbol)
indexed u k index =
    if contains k (unwrap_or (index u) [])
    then index
    else put u (push_back (unwrap_or (index u) []) k) index

flag_score_input_lem :
    (u : Address) (k : Symbol) (reason : String) (env : Env) (s : Oracle)
    → Ensures
        (λ _ t.
          (t.dispute ≡ put (u, k) (filed_by u k reason env) s.dispute)
          × (t.dispute_index ≡ indexed u k s.dispute_index)
          × (has_pending (s.dispute (u, k)) ≡ false)
          × (is_input_key k ≡ true)
          × (env.authorized u ≡ true))
        (flag_score_input u k reason env s)
unfolding flag_score_input
flag_score_input_lem u k reason env s = ground arith

resolve_dispute_lem :
    (u : Address) (k : Symbol) (accepted : Bool) (env : Env) (s : Oracle) (d : DisputeRecord)
    → s.dispute (u, k) ≡ some d
    → Ensures
        (λ _ t.
          (t.dispute ≡ put (u, k) (closed_as accepted d) s.dispute)
          × (t.dispute_index ≡ s.dispute_index)
          × (d.status ≡ pending)
          × (a : Address) × IsAdmin env s a)
        (resolve_dispute u k accepted env s)
unfolding resolve_dispute
resolve_dispute_lem u k accepted env s d e = ground arith

-- What a request does to the disputes as a whole.
abbrev pub Changes : Env → Oracle → Oracle → Type 0
Changes env s t =
    ((t.dispute ≡ s.dispute) × (t.dispute_index ≡ s.dispute_index))
    ⊎ ((u : Address) × (k : Symbol) × (d : DisputeRecord) × (t.dispute ≡ put (u, k) d s.dispute)
        × (t.dispute_index ≡ indexed u k s.dispute_index)
        × Moves env s u k (s.dispute (u, k)) (some d))
    ⊎ ((u : Address) × (k : Symbol) × (d : DisputeRecord) × (t.dispute ≡ put (u, k) d s.dispute)
        × (t.dispute_index ≡ s.dispute_index)
        × (is_some (s.dispute (u, k)) ≡ true)
        × Moves env s u k (s.dispute (u, k)) (some d))

pub run-Changes :
    (client : IdentityClient) (req : Request) (env : Env) (s : Oracle)
    → Ensures (λ _. Changes env s) (run client req env s)
unfolding run
run-Changes client (flag u k reason) env s =
    Ensures-imp
      (λ t h. inr (
        inl (
          u,
          k,
          filed_by u k reason env,
          h.0,
          h.1,
          inr (inl (filed_by u k reason env, refl, h.2, refl, refl, refl, refl, h.3, h.4)),
        )))
      (flag_score_input u k reason env s) (flag_score_input_lem u k reason env s)
run-Changes client (resolve u k accepted) env s = elim (Option-cases (s.dispute (u, k))) [
  | inl e ↦ unfold resolve_dispute in ground arith
  | inr (d, e) ↦
      Ensures-imp
        (λ t h. inr (
          inr (
            u,
            k,
            closed_as accepted d,
            h.0,
            h.1,
            ground arith,
            inr (inr (d, e, h.2, accepted, refl, h.3, h.4)),
          )))
        (resolve_dispute u k accepted env s) (resolve_dispute_lem u k accepted env s d e)
]
run-Changes client req env s =
    Ensures-imp (λ t frame. inl (frame disputes refl)) (run client req env s)
      (run-Unchanged client req env s)

Moves-put :
    (env : Env) (s : Oracle) (u : Address) (k : Symbol) (d : DisputeRecord)
    → Moves env s u k (s.dispute (u, k)) (some d)
    → (v : Address) (j : Symbol)
    → Moves env s v j (s.dispute (v, j)) (put (u, k) d s.dispute (v, j))
Moves-put env s u k d m v j = elim (Bool-cases (v == u && j == k)) [
  | inl same ↦
      let p = (nat_eq.same_iff v u).0 (ground arith) in
      let q = (string_eq.same_iff j k).0 (ground arith) in
      rw (p, q) (rw (put_same (u, k) d s.dispute) m)
  | inr other ↦ inl (ground arith)
]

-- A successful request leaves the dispute of a subject and a key alone; or the subject authorized
-- it, the key is one of the three score inputs, no dispute was pending there, and a pending one is
-- filed at this ledger; or the administrator authorized it and turns a pending dispute into a
-- resolved or a rejected one that differs in nothing else.
pub run-Moves :
    (client : IdentityClient) (req : Request) (env : Env) (s : Oracle)
    → Ensures
        (λ _ t. (u : Address) (k : Symbol) → Moves env s u k (s.dispute (u, k)) (t.dispute (u, k)))
        (run client req env s)
run-Moves client req env s =
    Ensures-imp (λ t c. Changes-Moves env s t c) (run client req env s)
      (run-Changes client req env s)
  where
    Changes-Moves :
        (env : Env) (s t : Oracle)
        → Changes env s t
        → (u : Address) (k : Symbol) → Moves env s u k (s.dispute (u, k)) (t.dispute (u, k))
    Changes-Moves env s t (inl (e, _)) u k = rw e (inl refl)
    Changes-Moves env s t (inr (inl (u, k, d, e, _, m))) v j = rw e (Moves-put env s u k d m v j)
    Changes-Moves env s t (inr (inr (u, k, d, e, _, _, m))) v j = rw e (Moves-put env s u k d m v j)
