-- ===== src/RevocationRegistry/Permanence.antt =====
-- A revocation is for good, and only its issuer can make it.
use stellar_did_credit.Base.{
  List, [], arith, contains, false, inl, nat_eq, refl, some, true, ◌∙◌, ◌≡◌, ◌⊎◌,
}
use stellar_did_credit.Host.{Address, Ensures, Ensures-all, Env, Hash, ensured, ok}
use stellar_did_credit.RevocationRegistry.State.{Registry}
use stellar_did_credit.RevocationRegistry.Revoke.{Peer, batch_revoke, revoke}
use stellar_did_credit.RevocationRegistry.Batch.{RevokesAll}
use stellar_did_credit.RevocationRegistry.Queries.{get_revocation_record, is_paused, is_revoked}
use stellar_did_credit.RevocationRegistry.Steps.{
  Reach, Request, here, invocation, next, revoke_batch, revoke_one, run,
}
use stellar_did_credit.RevocationRegistry.Invariant.{
  IsConsistent, Reach-IsConsistent, contains-any_foreign, revoker, run-RevokesAll, targets,
}

RevokesAll-keeps :
    (issuer : Address) (hs : List Hash) (s t : Registry) (h : Hash)
    → RevokesAll issuer hs s t
    → IsConsistent s
    → is_revoked s h ≡ true
    → (is_revoked t h ≡ true) × (get_revocation_record t h ≡ get_revocation_record s h)
unfolding is_revoked get_revocation_record
RevokesAll-keeps issuer hs s t h r c e = (
  ground (arith, r.status_at h),
  ground
      (arith, r.issuer_at h, r.own, c.registered h, c.status h, contains-any_foreign s issuer h hs),
)

-- From a consistent state, once a hash is revoked, no sequence of invocations makes it valid again
-- or changes the issuer on its record.
pub Reach-is_revoked :
    {s t : Registry} (h : Hash)
    → Reach s t
    → IsConsistent s
    → is_revoked s h ≡ true
    → (is_revoked t h ≡ true) × (get_revocation_record t h ≡ get_revocation_record s h)
Reach-is_revoked h here c e = (e, refl)
Reach-is_revoked {s} {t} h (next {t = u} r (invocation peer req env done)) c e =
    let before = Reach-is_revoked h r c e in
    let (revoked, same) =
      RevokesAll-keeps (revoker req) (targets req) u t h
        (ensured _ (run peer req env u) (run-RevokesAll peer req env u) done)
        (Reach-IsConsistent r c) before.0 in
    (revoked, same ∙ before.1)

-- A successful request that revokes anything was authorized by its issuer, on a registry that
-- was not paused.
run_authorized :
    (peer : Peer) (req : Request) (env : Env) (s : Registry)
    → Ensures
        (λ _ _.
          (targets req ≡ []) ⊎ ((env.authorized (revoker req) ≡ true) × (is_paused s ≡ false)))
        (run peer req env s)
unfolding run is_paused
run_authorized peer (revoke_one issuer subject h) env s = unfold revoke in ground arith
run_authorized peer (revoke_batch issuer hs) env s = unfold batch_revoke in ground arith
run_authorized peer req env s = Ensures-all (λ _ _. inl refl) (run peer req env s)

-- If a successful request makes a hash revoked that was not, the request names the hash, its
-- issuer authorized it, the registry was not paused, and that issuer is then on record.
pub run_revoked_by :
    (peer : Peer) (req : Request) (env : Env) (s : Registry) {t : Registry} (h : Hash)
    → run peer req env s ≡ ok tt t
    → is_revoked s h ≡ false
    → is_revoked t h ≡ true
    → (contains h (targets req) ≡ true)
      × (env.authorized (revoker req) ≡ true)
      × (is_paused s ≡ false)
      × (get_revocation_record t h ≡ some (revoker req))
unfolding is_revoked get_revocation_record
run_revoked_by peer req env s {t} h e before after =
    let r = ensured _ (run peer req env s) (run-RevokesAll peer req env s) e in
    let a = ensured _ (run peer req env s) (run_authorized peer req env s) e in
    ground (arith, r.status_at h, r.issuer_at h, a)
