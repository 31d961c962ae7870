-- ===== src/RevocationRegistry/Batch.antt =====
-- The loop of `batch_revoke` against a description of its result by the batch as a whole.
use stellar_did_credit.Base.{
  Bool, Bool-cases, List, Option-cases, [], arith, contains, false, if◌then◌else◌, inl, inr, length,
  nat_beq_iff, nat_eq, none, not, put, refl, some, true, unwrap_or, ◌==◌, ◌||◌, ◌∷◌, ◌≡◌, ◌≤◌,
}
use stellar_did_credit.Host.{Address, Ensures, Env, Hash, Outcome, err, ok, trap}
use stellar_did_credit.RevocationRegistry.State.{
  Event, Registry, RevocationRegistryError, issuer_mismatch, max_batch_size,
}
use stellar_did_credit.RevocationRegistry.Revoke.{batch_revoke, claim_issuer, revoke_each}
use stellar_did_credit.RevocationRegistry.Effects.{Revokes, list_of, listed}

-- The hash is registered to another issuer.
abbrev pub is_foreign : Registry → Address → Hash → Bool
is_foreign s issuer h = elim (s.registered_vc_issuer h) [
  | none ↦ false
  | some existing ↦ not (existing == issuer)
]

abbrev pub any_foreign : Registry → Address → List Hash → Bool
any_foreign s issuer [] = false
any_foreign s issuer (h ∷ hs) = is_foreign s issuer h || any_foreign s issuer hs

-- The list after all hashes of a batch were added, in order and without repetition.
abbrev pub list_all : List Hash → List Hash → List Hash
list_all [] list = list
list_all (h ∷ hs) list = list_all hs (listed h list)

-- The entries of `t` are those of `s` once `issuer` has revoked the hashes `hs`.
pub record RevokesAll (issuer : Address) (hs : List Hash) (s t : Registry) : Type 0 where
  pub own : any_foreign s issuer hs ≡ false
  pub status_at : (k : Hash) → t.status k ≡ (if contains k hs then some true else s.status k)
  pub issuer_at :
      (k : Hash) → t.issuer_of_vc k ≡ (if contains k hs then some issuer else s.issuer_of_vc k)
  pub registered_at :
      (k : Hash)
      → t.registered_vc_issuer k ≡ (if contains k hs then some issuer else s.registered_vc_issuer k)
  pub list_at :
      (a : Address)
      → list_of t a ≡ (if a == issuer then list_all hs (list_of s issuer) else list_of s a)

-- The states that a round passes through.
abbrev pub claimed : Address → Hash → Registry → Registry
claimed issuer h s = record s { registered_vc_issuer = put h issuer s.registered_vc_issuer }

abbrev pub marked : Address → Hash → Registry → Registry
marked issuer h s = record s {
  status = put h true s.status;
  issuer_of_vc = put h issuer s.issuer_of_vc;
  events = Event.revoked issuer h ∷ s.events;
}

-- `u` is `s` after the round of the loop for `h`.
record IsRound (issuer : Address) (h : Hash) (s u : Registry) : Type 0 where
  own : is_foreign s issuer h ≡ false
  status_at : (k : Hash) → u.status k ≡ (if k == h then some true else s.status k)
  issuer_at : (k : Hash) → u.issuer_of_vc k ≡ (if k == h then some issuer else s.issuer_of_vc k)
  registered_at :
      (k : Hash)
      → u.registered_vc_issuer k ≡ (if k == h then some issuer else s.registered_vc_issuer k)
  lists : (a : Address) → u.issuer_revoked_list a ≡ s.issuer_revoked_list a

abbrev pub LoopPost :
    Address
    → List Hash
    → List Hash
    → Bool
    → Registry
    → Outcome RevocationRegistryError Registry (List Hash × Bool)
    → Type 0
LoopPost issuer hs list m s (ok (list', m') t) =
    (any_foreign s issuer hs ≡ false)
    × ((k : Hash) → t.status k ≡ (if contains k hs then some true else s.status k))
    × ((k : Hash) → t.issuer_of_vc k ≡ (if contains k hs then some issuer else s.issuer_of_vc k))
    × ((k : Hash)
        → t.registered_vc_issuer k
          ≡ (if contains k hs then some issuer else s.registered_vc_issuer k))
    × ((a : Address) → t.issuer_revoked_list a ≡ s.issuer_revoked_list a)
    × (list' ≡ list_all hs list)
    × (m' ≡ false → (m ≡ false) × (list' ≡ list))
LoopPost issuer hs list m s (err e) = (e ≡ issuer_mismatch) × (any_foreign s issuer hs ≡ true)
LoopPost issuer hs list m s trap = ⊥

any_foreign-IsRound :
    (issuer : Address) (h : Hash) (s u : Registry) (hs : List Hash)
    → IsRound issuer h s u
    → any_foreign u issuer hs ≡ any_foreign s issuer hs
any_foreign-IsRound issuer h s u [] r = refl
any_foreign-IsRound issuer h s u (k ∷ ks) r =
    ground (arith, r.own, r.registered_at k, any_foreign-IsRound issuer h s u ks r)

-- What the rest of the loop does after a round is what the whole loop does.
LoopPost-IsRound :
    (issuer : Address) (h : Hash) (hs list : List Hash) (m : Bool) (s u : Registry)
    (o : Outcome RevocationRegistryError Registry (List Hash × Bool))
    → IsRound issuer h s u
    → LoopPost issuer hs (listed h list) (if contains h list then m else true) u o
    → LoopPost issuer (h ∷ hs) list m s o
LoopPost-IsRound issuer h hs list m s u (ok (list', m') t) r p = (
  ground (arith, r.own, p.0, any_foreign-IsRound issuer h s u hs r),
  λ k. ground (arith, r.status_at k, p.1 k),
  λ k. ground (arith, r.issuer_at k, p.2 k),
  λ k. ground (arith, r.registered_at k, p.3 k),
  λ a. ground (arith, r.lists a, p.4 a),
  p.5,
  λ e. ground (arith, p.6 e),
)
LoopPost-IsRound issuer h hs list m s u (err e) r p =
    ground (arith, any_foreign-IsRound issuer h s u hs r)
LoopPost-IsRound issuer h hs list m s u trap r p = p

pub revoke_each-LoopPost :
    (issuer : Address) (hs list : List Hash) (m : Bool) (env : Env) (s : Registry)
    → LoopPost issuer hs list m s (revoke_each issuer hs list m env s)
unfolding revoke_each
revoke_each-LoopPost issuer [] list m env s = ground arith
revoke_each-LoopPost issuer (h ∷ hs) list m env s = elim (Option-cases (s.registered_vc_issuer h)) [
  | inl e ↦
      rw (e, claim_issuer)
        (LoopPost-IsRound issuer h hs list m s (marked issuer h (claimed issuer h s)) _
          (ground arith) (revoke_each-LoopPost issuer hs _ _ env _))
  | inr (a, e) ↦ elim (Bool-cases (a == issuer)) [
    | inl own ↦
        rw (e, claim_issuer, own)
          (LoopPost-IsRound issuer h hs list m s (marked issuer h s) _ (ground arith)
            (revoke_each-LoopPost issuer hs _ _ env _))
    | inr other ↦ rw (e, claim_issuer, other) (ground arith)
  ]
]

-- A batch is refused without effect, or revokes each of its hashes.
pub batch_revoke-RevokesAll :
    (issuer : Address) (hs : List Hash) (env : Env) (s : Registry)
    → Ensures (λ _. RevokesAll issuer hs s) (batch_revoke issuer hs env s)
unfolding batch_revoke
batch_revoke-RevokesAll issuer hs env s =
    ground (arith, revoke_each-LoopPost issuer hs (list_of s issuer) false env s)

pub batch_revoke_foreign :
    (issuer : Address) (hs : List Hash) (env : Env) (s : Registry)
    → unwrap_or s.paused false ≡ false
    → env.authorized issuer ≡ true
    → length hs ≤ unwrap_or s.batch_limit max_batch_size
    → any_foreign s issuer hs ≡ true
    → batch_revoke issuer hs env s ≡ err issuer_mismatch
unfolding batch_revoke
batch_revoke_foreign issuer hs env s unpaused auth small foreign =
    ground (arith, revoke_each-LoopPost issuer hs (list_of s issuer) false env s)

-- A revocation is a batch of one.
pub Revokes-RevokesAll :
    (issuer : Address) (h : Hash) (s t : Registry)
    → Revokes issuer h s t
    → RevokesAll issuer (h ∷ []) s t
Revokes-RevokesAll issuer h s t r = record {
  own = ground (arith, r.claimed);
  status_at = λ k. ground (arith, r.status_at k, nat_beq_iff h k);
  issuer_at = λ k. ground (arith, r.issuer_at k, nat_beq_iff h k);
  registered_at = λ k. ground (arith, r.registered_at k, nat_beq_iff h k);
  list_at = λ a. ground (arith, r.list_at a);
}
