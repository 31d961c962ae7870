-- ===== src/RevocationRegistry/Effects.antt =====
-- What a successful `revoke` and `batch_revoke` leave in the entries of the registry.
use stellar_did_credit.Base.{
  List, [], arith, contains, if◌then◌else◌, nat_eq, none, push_back, some, true, unwrap_or, ◌==◌,
  ◌≡◌, ◌⊎◌,
}
use stellar_did_credit.Host.{Address, Ensures, Env, Hash}
use stellar_did_credit.RevocationRegistry.State.{Registry}
use stellar_did_credit.RevocationRegistry.Revoke.{Peer, revoke}

-- The revocation list of an issuer, empty when there is none.
abbrev pub list_of : Registry → Address → List Hash
list_of s a = unwrap_or (s.issuer_revoked_list a) []

-- The list after the revocation of a hash.
abbrev pub listed : Hash → List Hash → List Hash
listed h list = if contains h list then list else push_back list h

-- The entries of `t` are those of `s` once `issuer` has revoked `h`.
pub record Revokes (issuer : Address) (h : Hash) (s t : Registry) : Type 0 where
  pub claimed : (s.registered_vc_issuer h ≡ none) ⊎ (s.registered_vc_issuer h ≡ some issuer)
  pub status_at : (k : Hash) → t.status k ≡ (if k == h then some true else s.status k)
  pub issuer_at : (k : Hash) → t.issuer_of_vc k ≡ (if k == h then some issuer else s.issuer_of_vc k)
  pub registered_at :
      (k : Hash)
      → t.registered_vc_issuer k ≡ (if k == h then some issuer else s.registered_vc_issuer k)
  pub list_at :
      (a : Address)
      → list_of t a ≡ (if a == issuer then listed h (list_of s issuer) else list_of s a)

pub revoke-Revokes :
    (peer : Peer) (issuer subject : Address) (h : Hash) (env : Env) (s : Registry)
    → Ensures (λ _. Revokes issuer h s) (revoke peer issuer subject h env s)
unfolding revoke
revoke-Revokes peer issuer subject h env s = ground arith
