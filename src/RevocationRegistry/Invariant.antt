-- ===== src/RevocationRegistry/Invariant.antt =====
-- The invariant of the registry's entries, and that every committed invocation keeps it.
use stellar_did_credit.RevocationRegistry.Admin.{
  accept_admin, initialize, maintain_storage, pause, propose_new_admin, set_batch_limit,
  set_identity_oracle, unpause, upgrade,
}
use stellar_did_credit.RevocationRegistry.Revoke.{Peer, revoke}
use stellar_did_credit.RevocationRegistry.Steps.{
  Reach, Request, Step, accept, here, initialize_with, invocation, maintain, next, pause_all,
  propose, revoke_batch, revoke_one, run, set_limit, set_oracle, unpause_all, upgrade_to,
}
use stellar_did_credit.Base.{
  Bool, List, Option, [], arith, contains, contains-push_back, false, is_distinct,
  is_distinct-push_back, nat_beq_iff, nat_eq, none, refl, some, true, ◌==◌, ◌||◌, ◌∙◌, ◌∷◌, ◌≡◌,
}
use stellar_did_credit.Host.{Address, Ensures, Ensures-imp, Env, Hash, ensured}
use stellar_did_credit.RevocationRegistry.State.{Registry, deployed}
use stellar_did_credit.RevocationRegistry.Effects.{list_of, listed, revoke-Revokes}
use stellar_did_credit.RevocationRegistry.Batch.{
  Revokes-RevokesAll, RevokesAll, any_foreign, batch_revoke-RevokesAll, is_foreign, list_all,
}

-- Whether `a` revoked a hash, by the issuer that is recorded for it.
abbrev pub is_by : Address → Option Address → Bool
is_by a none = false
is_by a (some b) = b == a

-- The status that goes with a recorded issuer.
abbrev pub status_of : Option Address → Option Bool
status_of none = none
status_of (some b) = some true

pub record IsConsistent (s : Registry) : Type 0 where
  pub registered : (h : Hash) → s.registered_vc_issuer h ≡ s.issuer_of_vc h
  pub status : (h : Hash) → s.status h ≡ status_of (s.issuer_of_vc h)
  pub lists : (h : Hash) (a : Address) → contains h (list_of s a) ≡ is_by a (s.issuer_of_vc h)
  pub distinct : (a : Address) → is_distinct (list_of s a) ≡ true

pub deployed-IsConsistent : IsConsistent deployed
deployed-IsConsistent = ground arith

contains-listed :
    (k h : Hash) (xs : List Hash) → contains k (listed h xs) ≡ (h == k || contains k xs)
contains-listed k h xs = ground (arith, contains-push_back k h xs)

is_distinct-listed : (h : Hash) (xs : List Hash) → is_distinct (listed h xs) ≡ is_distinct xs
is_distinct-listed h xs = ground (arith, is_distinct-push_back h xs)

contains-list_all :
    (k : Hash) (hs xs : List Hash) → contains k (list_all hs xs) ≡ (contains k hs || contains k xs)
contains-list_all k [] xs = refl
contains-list_all k (h ∷ hs) xs =
    ground (arith, contains-list_all k hs (listed h xs), contains-listed k h xs)

is_distinct-list_all : (hs xs : List Hash) → is_distinct (list_all hs xs) ≡ is_distinct xs
is_distinct-list_all [] xs = refl
is_distinct-list_all (h ∷ hs) xs = is_distinct-list_all hs (listed h xs) ∙ is_distinct-listed h xs

-- A hash that no one else holds has no other recorded issuer.
pub contains-any_foreign :
    (s : Registry) (issuer : Address) (k : Hash) (hs : List Hash)
    → any_foreign s issuer hs ≡ false
    → contains k hs ≡ true
    → is_foreign s issuer k ≡ false
contains-any_foreign s issuer k [] e c = cc
contains-any_foreign s issuer k (h ∷ hs) e c =
    ground (arith, contains-any_foreign s issuer k hs, nat_beq_iff h k)

pub RevokesAll-IsConsistent :
    (issuer : Address) (hs : List Hash) (s t : Registry)
    → RevokesAll issuer hs s t
    → IsConsistent s
    → IsConsistent t
RevokesAll-IsConsistent issuer hs s t r c = record {
  registered = λ k. ground (arith, r.registered_at k, r.issuer_at k, c.registered k);
  status = λ k. ground (arith, r.status_at k, r.issuer_at k, c.status k);
  lists = λ k a. ground (
    arith,
    r.list_at a,
    r.issuer_at k,
    r.own,
    c.lists k a,
    c.registered k,
    contains-list_all k hs (list_of s issuer),
    contains-any_foreign s issuer k hs,
  );
  distinct =
      λ a. ground (arith, r.list_at a, c.distinct a, is_distinct-list_all hs (list_of s issuer));
}

-- The issuer and the hashes of a revoking request.
abbrev pub revoker : Request → Address
revoker (revoke_one issuer subject h) = issuer
revoker (revoke_batch issuer hs) = issuer
revoker req = 0

abbrev pub targets : Request → List Hash
targets (revoke_one issuer subject h) = h ∷ []
targets (revoke_batch issuer hs) = hs
targets req = []

-- Every committed invocation revokes exactly the hashes that it names.
pub run-RevokesAll :
    (peer : Peer) (req : Request) (env : Env) (s : Registry)
    → Ensures (λ _. RevokesAll (revoker req) (targets req) s) (run peer req env s)
unfolding run
run-RevokesAll peer (revoke_one issuer subject h) env s =
    Ensures-imp (Revokes-RevokesAll issuer h s) (revoke peer issuer subject h env s)
      (revoke-Revokes peer issuer subject h env s)
run-RevokesAll peer (revoke_batch issuer hs) env s = batch_revoke-RevokesAll issuer hs env s
run-RevokesAll peer (initialize_with a) env s = unfold initialize in ground arith
run-RevokesAll peer pause_all env s = unfold pause in ground arith
run-RevokesAll peer unpause_all env s = unfold unpause in ground arith
run-RevokesAll peer maintain env s = unfold maintain_storage in ground arith
run-RevokesAll peer (set_limit a n) env s = unfold set_batch_limit in ground arith
run-RevokesAll peer (set_oracle a) env s = unfold set_identity_oracle in ground arith
run-RevokesAll peer (propose a) env s = unfold propose_new_admin in ground arith
run-RevokesAll peer (accept a) env s = unfold accept_admin in ground arith
run-RevokesAll peer (upgrade_to w) env s = unfold upgrade in ground arith

pub Step-IsConsistent : {s t : Registry} → Step s t → IsConsistent s → IsConsistent t
Step-IsConsistent {s} {t} (invocation peer req env e) c =
    RevokesAll-IsConsistent (revoker req) (targets req) s t
      (ensured _ (run peer req env s) (run-RevokesAll peer req env s) e) c

pub Reach-IsConsistent : {s t : Registry} → Reach s t → IsConsistent s → IsConsistent t
Reach-IsConsistent here c = c
Reach-IsConsistent (next r st) c = Step-IsConsistent st (Reach-IsConsistent r c)

-- In every state that a fresh contract can reach, a hash is flagged as revoked exactly when an
-- issuer is recorded for it, that issuer is the registered one, the hash stands in the list of
-- that issuer and of no other, and no list repeats a hash.
pub Reach-deployed-IsConsistent : {t : Registry} → Reach deployed t → IsConsistent t
Reach-deployed-IsConsistent r = Reach-IsConsistent r deployed-IsConsistent
