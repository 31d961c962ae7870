-- ===== src/Together/Revocation.antt =====
-- The revocation registry (contracts/revocation-registry/src/lib.rs) answers the calls of the identity
-- oracle (contracts/identity-oracle/src/lib.rs).
use stellar_did_credit.Base.{
  Bool, List, [], arith, false, length, nat_beq_iff, refl, some, true, u32_max, ◌∷◌, ◌≡◌, ◌≤◌,
}
use stellar_did_credit.Host.{Address, Env, Hash, ok}
use stellar_did_credit.Credential.{IdentityVcRecord}
use stellar_did_credit.RevocationRegistry.State.{Registry}
use stellar_did_credit.RevocationRegistry.Steps.{Reach}
use stellar_did_credit.RevocationRegistry.Queries.{is_revoked}
use stellar_did_credit.RevocationRegistry.Invariant.{IsConsistent}
use stellar_did_credit.RevocationRegistry.Permanence.{Reach-is_revoked}
use stellar_did_credit.IdentityOracle.State.{Identity, RegistryClient, anchors_of}
use stellar_did_credit.IdentityOracle.Queries.{get_vc_details, verify_vc}
use stellar_did_credit.IdentityOracle.Active.{active_agree, actives, all_answered, has_hash}

-- The registry in a state, as the identity oracle sees it; whether it lets itself be linked plays no
-- part in what it says of a hash.
abbrev pub registry_of : (Address → Address → Bool) → Registry → RegistryClient
registry_of links t = record {
  is_revoked = λ registry h. some (is_revoked t h);
  set_identity_oracle = links;
}

all_answered-registry_of :
    (links : Address → Address → Bool) (t : Registry) (registry : Address)
    (rs : List IdentityVcRecord)
    → all_answered (registry_of links t) (some registry) rs ≡ true
all_answered-registry_of links t registry [] = refl
all_answered-registry_of links t registry (r ∷ rs) =
    ground (arith, all_answered-registry_of links t registry rs)

has_hash-actives :
    (links : Address → Address → Bool) (t : Registry) (registry : Address) (h : Hash)
    (rs : List IdentityVcRecord)
    → is_revoked t h ≡ true
    → has_hash h (actives (registry_of links t) (some registry) rs) ≡ false
has_hash-actives links t registry h [] e = refl
has_hash-actives links t registry h (r ∷ rs) e = ground (
  arith,
  has_hash-actives links t registry h rs,
  nat_beq_iff r.vc_hash h,
  nat_beq_iff h r.vc_hash,
)

-- Once a hash is revoked in a consistent registry, an identity oracle that is linked to it never
-- verifies the hash again, for any subject with at most `2 ^ 32 - 1` credentials, and
-- `get_vc_details` does not list it, whatever the registry does in the meantime.
pub revoked_never_verifies :
    (links : Address → Address → Bool) (u : Address) (h : Hash) (env : Env) (i : Identity)
    {s t : Registry} {registry : Address}
    → Reach s t
    → IsConsistent s
    → is_revoked s h ≡ true
    → i.revocation_registry_id ≡ some registry
    → length (anchors_of i u) ≤ u32_max
    → (verify_vc (registry_of links t) u h env i ≡ ok false i)
      × (list : List IdentityVcRecord) × (get_vc_details (registry_of links t) u env i ≡ ok list i)
      × (has_hash h list ≡ false)
revoked_never_verifies links u h env i {s} {t} {registry} steps consistent revoked linked small =
    let still = (Reach-is_revoked h steps consistent revoked).0 in
    let gone = has_hash-actives links t registry h (anchors_of i u) still in
    let answered : all_answered (registry_of links t) i.revocation_registry_id (anchors_of i u)
        ≡ true =
      rw linked (all_answered-registry_of links t registry (anchors_of i u)) in
    let agree = active_agree (registry_of links t) u h env i answered small in
    let gone' : has_hash h (actives (registry_of links t) i.revocation_registry_id (anchors_of i u))
        ≡ false =
      rw linked gone in
    (
      rw gone' at agree.2,
      actives (registry_of links t) i.revocation_registry_id (anchors_of i u),
      agree.0,
      gone',
    )
