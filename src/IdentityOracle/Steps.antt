-- ===== src/IdentityOracle/Steps.antt =====
-- The entry points of contracts/identity-oracle/src/lib.rs that can write, as one relation between the
-- states before and after a successful invocation.
use stellar_did_credit.Base.{nat_eq, ℕ, ◌≡◌}
use stellar_did_credit.Host.{Address, Env, Hash, Symbol, ok, pure, ◌>>◌}
use stellar_did_credit.IdentityOracle.State.{Bytes, Identity, Method, RegistryClient}
use stellar_did_credit.IdentityOracle.Admin.{
  accept_admin, deregister_issuer, initialize, maintain_storage, migrate, pause, propose_new_admin,
  register_issuer, set_issuer_tier, set_revocation_registry, unpause, upgrade,
}
use stellar_did_credit.IdentityOracle.Credentials.{anchor_vc_typed, mark_vc_revoked}
use stellar_did_credit.IdentityOracle.Identities.{
  anchor_did, deactivate_did, deactivate_identity, reactivate_identity,
}
use stellar_did_credit.IdentityOracle.Queries.{get_active_vc_count}

pub data Request : Type 0 where
  initialize_with : Address → Request
  pause_all unpause_all migrate_storage maintain : Request
  link_registry add_issuer drop_issuer : Address → Request
  rate_issuer : Address → Address → ℕ → Request
  propose accept : Address → Request
  upgrade_to : Hash → Request
  set_did : Address → Bytes → Request
  end_did end_identity resume_identity : Address → Request
  anchor : Address → Address → Hash → Symbol → Request
  mark : Address → Address → Hash → Request
  count : Address → Request

unfoldable pub run : RegistryClient → Request → Method (Unit {0})
run client (initialize_with a) = initialize a
run client pause_all = pause
run client unpause_all = unpause
run client migrate_storage = migrate
run client maintain = maintain_storage
run client (link_registry r) = set_revocation_registry client r
run client (add_issuer a) = register_issuer a
run client (drop_issuer a) = deregister_issuer a
run client (rate_issuer admin a w) = set_issuer_tier admin a w
run client (propose a) = propose_new_admin a
run client (accept a) = accept_admin a
run client (upgrade_to w) = upgrade w
run client (set_did u cid) = anchor_did u cid
run client (end_did u) = deactivate_did u
run client (end_identity u) = deactivate_identity u >> pure tt
run client (resume_identity u) = reactivate_identity u
run client (anchor issuer u h type) = anchor_vc_typed client issuer u h type
run client (mark issuer u h) = mark_vc_revoked client issuer u h
run client (count u) = get_active_vc_count client u >> pure tt

-- One committed invocation. The environment and the answers of the registry may differ from call
-- to call.
pub data Step (s t : Identity) : Type 0 where
  invocation :
      (client : RegistryClient) (req : Request) (env : Env)
      → run client req env s ≡ ok tt t
      → Step s t

pub data Reach (s : Identity) : Identity → Type 0 where
  here : Reach s s
  next : {t u : Identity} → Reach s t → Step t u → Reach s u
