-- ===== src/IdentityOracle/ExactReach.antt =====
-- In every reachable state without a linked registry, the cached counts are exact.
use mathlib.Core.Path.{subst}
use stellar_did_credit.Base.{
  Option-cases, ap, arith, inl, inr, is_some, nat_beq_iff, nat_eq, none, refl, ◌∙◌, ◌≡◌,
}
use stellar_did_credit.Host.{Address, Ensures, Ensures-imp, Env, Hash, Outcome, Symbol, ensured}
use stellar_did_credit.IdentityOracle.State.{
  Identity, IdentityOracleError, RegistryClient, anchors_of, deployed,
}
use stellar_did_credit.IdentityOracle.Admin.{
  accept_admin, deregister_issuer, initialize, maintain_storage, migrate, pause, propose_new_admin,
  register_issuer, set_issuer_tier, set_revocation_registry, unpause, upgrade,
}
use stellar_did_credit.IdentityOracle.Credentials.{anchor_vc_typed, mark_vc_revoked}
use stellar_did_credit.IdentityOracle.Identities.{
  anchor_did, deactivate_did, deactivate_identity, reactivate_identity,
}
use stellar_did_credit.IdentityOracle.Queries.{get_active_vc_count}
use stellar_did_credit.IdentityOracle.Steps.{
  Reach, Request, accept, add_issuer, anchor, count, drop_issuer, end_did, end_identity, here,
  initialize_with, invocation, link_registry, maintain, mark, migrate_storage, next, pause_all,
  propose, rate_issuer, resume_identity, run, set_did, unpause_all, upgrade_to,
}
use stellar_did_credit.IdentityOracle.Exact.{IsExactFor}
use stellar_did_credit.IdentityOracle.ExactSteps.{
  Keeps, count_active-none, deactivate_core-Keeps, mark_vc_revoked-Keeps, push_anchor-Keeps,
}
use stellar_did_credit.IdentityOracle.Links.{
  ExactUnder, Idle, Idle-IsExact, IsExact, Keeps-IsExact, SameLink, anchor_vc_typed-SameLink,
  deactivate_core-SameLink, linked-IsExact, mark_vc_revoked-SameLink, seed_active_vc_count-SameLink,
}

-- What a request on the credentials of a subject keeps, whether or not a registry is linked.
IsExact-either :
    (u : Address) (s : Identity) (o : Outcome IdentityOracleError Identity (Unit {0}))
    → (s.revocation_registry_id ≡ none
        → IsExactFor (anchors_of s u) (s.active_vc_count u)
        → Ensures (λ _. Keeps u s) o)
    → Ensures (λ _. SameLink s) o
    → IsExact s
    → Ensures (λ _. IsExact) o
IsExact-either u s o keeps same h = elim (Option-cases s.revocation_registry_id) [
  | inl n ↦
      let exact : ExactUnder none s = subst (λ r. ExactUnder r s) n h in
      Ensures-imp (λ t k. Keeps-IsExact u s t exact k) o (keeps n (exact u))
  | inr (r, n) ↦ Ensures-imp (λ t e. linked-IsExact t (ap is_some e ∙ ap is_some n)) o same
]

anchor_vc_typed-Keeps :
    (client : RegistryClient) (issuer u : Address) (h : Hash) (type : Symbol) (env : Env)
    (s : Identity)
    → s.revocation_registry_id ≡ none
    → IsExactFor (anchors_of s u) (s.active_vc_count u)
    → Ensures (λ _. Keeps u s) (anchor_vc_typed client issuer u h type env s)
unfolding anchor_vc_typed
anchor_vc_typed-Keeps client issuer u h type env s e exact =
    ground (arith, push_anchor-Keeps client issuer u h type env s e exact)

deactivate_did-Keeps :
    (u : Address) (env : Env) (s : Identity)
    → s.revocation_registry_id ≡ none
    → IsExactFor (anchors_of s u) (s.active_vc_count u)
    → Ensures (λ _. Keeps u s) (deactivate_did u env s)
unfolding deactivate_did
deactivate_did-Keeps u env s e exact = ground (arith, deactivate_core-Keeps u env s e exact)

deactivate_did-SameLink :
    (u : Address) (env : Env) (s : Identity) → Ensures (λ _. SameLink s) (deactivate_did u env s)
unfolding deactivate_did
deactivate_did-SameLink u env s = ground (arith, deactivate_core-SameLink u env s)

module _ (client : RegistryClient) (u : Address) (env : Env) (s : Identity) where
  end_identity-Keeps :
      s.revocation_registry_id ≡ none
      → IsExactFor (anchors_of s u) (s.active_vc_count u)
      → Ensures (λ _. Keeps u s) (run client (end_identity u) env s)
  unfolding run deactivate_identity
  end_identity-Keeps e exact = ground (arith, deactivate_core-Keeps u env s e exact)

  end_identity-SameLink : Ensures (λ _. SameLink s) (run client (end_identity u) env s)
  unfolding run deactivate_identity
  end_identity-SameLink = ground (arith, deactivate_core-SameLink u env s)

  count-Keeps :
      s.revocation_registry_id ≡ none
      → IsExactFor (anchors_of s u) (s.active_vc_count u)
      → Ensures (λ _. Keeps u s) (run client (count u) env s)
  unfolding run get_active_vc_count
  count-Keeps e exact =
      ground (arith, count_active-none client (anchors_of s u) 0 env s e, nat_beq_iff u u)

  count-SameLink : Ensures (λ _. SameLink s) (run client (count u) env s)
  unfolding run get_active_vc_count
  count-SameLink = ground (arith, seed_active_vc_count-SameLink client u env s)

Ensures-Idle-IsExact :
    (s : Identity) (o : Outcome IdentityOracleError Identity (Unit {0}))
    → Ensures (λ _. Idle s) o
    → IsExact s
    → Ensures (λ _. IsExact) o
Ensures-Idle-IsExact s o idle h = Ensures-imp (λ t i. Idle-IsExact s t h i) o idle

run-IsExact :
    (client : RegistryClient) (req : Request) (env : Env) (s : Identity)
    → IsExact s
    → Ensures (λ _. IsExact) (run client req env s)
unfolding run
run-IsExact client (initialize_with a) env s =
    Ensures-Idle-IsExact s (initialize a env s) (unfold initialize in ground arith)
run-IsExact client pause_all env s =
    Ensures-Idle-IsExact s (pause env s) (unfold pause in ground arith)
run-IsExact client unpause_all env s =
    Ensures-Idle-IsExact s (unpause env s) (unfold unpause in ground arith)
run-IsExact client migrate_storage env s =
    Ensures-Idle-IsExact s (migrate env s) (unfold migrate in ground arith)
run-IsExact client maintain env s =
    Ensures-Idle-IsExact s (maintain_storage env s) (unfold maintain_storage in ground arith)
run-IsExact client (link_registry r) env s =
    Ensures-Idle-IsExact s (set_revocation_registry client r env s)
      (unfold set_revocation_registry in ground arith)
run-IsExact client (add_issuer a) env s =
    Ensures-Idle-IsExact s (register_issuer a env s) (unfold register_issuer in ground arith)
run-IsExact client (drop_issuer a) env s =
    Ensures-Idle-IsExact s (deregister_issuer a env s) (unfold deregister_issuer in ground arith)
run-IsExact client (rate_issuer admin a w) env s =
    Ensures-Idle-IsExact s (set_issuer_tier admin a w env s)
      (unfold set_issuer_tier in ground arith)
run-IsExact client (propose a) env s =
    Ensures-Idle-IsExact s (propose_new_admin a env s) (unfold propose_new_admin in ground arith)
run-IsExact client (accept a) env s =
    Ensures-Idle-IsExact s (accept_admin a env s) (unfold accept_admin in ground arith)
run-IsExact client (upgrade_to w) env s =
    Ensures-Idle-IsExact s (upgrade w env s) (unfold upgrade in ground arith)
run-IsExact client (set_did u cid) env s =
    Ensures-Idle-IsExact s (anchor_did u cid env s) (unfold anchor_did in ground arith)
run-IsExact client (resume_identity u) env s =
    Ensures-Idle-IsExact s (reactivate_identity u env s)
      (unfold reactivate_identity in ground arith)
run-IsExact client (end_did u) env s =
    IsExact-either u s (deactivate_did u env s) (deactivate_did-Keeps u env s)
      (deactivate_did-SameLink u env s)
run-IsExact client (end_identity u) env s =
    IsExact-either u s (run client (end_identity u) env s) (end_identity-Keeps client u env s)
      (end_identity-SameLink client u env s)
run-IsExact client (count u) env s =
    IsExact-either u s (run client (count u) env s) (count-Keeps client u env s)
      (count-SameLink client u env s)
run-IsExact client (anchor issuer u h type) env s =
    IsExact-either u s (anchor_vc_typed client issuer u h type env s)
      (anchor_vc_typed-Keeps client issuer u h type env s)
      (anchor_vc_typed-SameLink client issuer u h type env s)
run-IsExact client (mark issuer u h) env s =
    IsExact-either u s (mark_vc_revoked client issuer u h env s)
      (mark_vc_revoked-Keeps client issuer u h env s)
      (mark_vc_revoked-SameLink client issuer u h env s)

Reach-IsExact : {s t : Identity} → Reach s t → IsExact s → IsExact t
Reach-IsExact here h = h
Reach-IsExact (next {t = u} r (invocation client req env e)) h =
    ensured (λ _. IsExact) (run client req env u) (run-IsExact client req env u (Reach-IsExact r h))
      e

-- In every state that a fresh contract can reach and in which no registry is linked, no issuer has
-- two credentials of a subject with one hash, and the cached active count of a subject is the
-- number of its credentials that are not flagged.
pub Reach-deployed-IsExact : {t : Identity} → Reach deployed t → IsExact t
Reach-deployed-IsExact r = Reach-IsExact r (λ u. (refl, refl))
