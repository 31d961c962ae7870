-- ===== src/RevocationRegistry/Revoke.antt =====
-- `revoke` and `batch_revoke` of contracts/revocation-registry/src/lib.rs.
use stellar_did_credit.Base.{
  Bool, List, Option, [], contains, false, if◌then◌else◌, length, ltb, nat_eq, none, not, push_back,
  put, some, true, unwrap_or, ◌==◌, ◌∷◌,
}
use stellar_did_credit.Host.{
  Address, Hash, fail_if, gets, modify, panic, pure, require_auth, ◌>>=◌, ◌>>◌,
}
use stellar_did_credit.RevocationRegistry.State.{
  Event, Method, Notice, batch_too_large, emit, ensure_not_paused, enter_guard, exit_guard,
  issuer_mismatch, max_batch_size,
}

-- Whether the identity oracle accepts a notice, or traps.
abbrev pub Peer : Type 0
Peer = Notice → Bool

-- The `match registered` that both entry points share.
unfoldable pub claim_issuer : Address → Hash → Option Address → Method (Unit {0})
claim_issuer issuer vc_hash none =
    modify (λ s. record s { registered_vc_issuer = put vc_hash issuer s.registered_vc_issuer })
claim_issuer issuer vc_hash (some existing) = fail_if (not (existing == issuer)) issuer_mismatch

-- The two `set` calls that follow it.
unfoldable pub mark_revoked : Address → Hash → Method (Unit {0})
mark_revoked issuer vc_hash = do
  modify (λ s. record s { status = put vc_hash true s.status })
  modify (λ s. record s { issuer_of_vc = put vc_hash issuer s.issuer_of_vc })

unfoldable pub invoke_oracle : Peer → Notice → Method (Unit {0})
invoke_oracle peer n = if peer n then modify (λ s. record s { notices = n ∷ s.notices }) else panic

-- The `if let Some(identity_oracle_id)` of `revoke`.
unfoldable pub notify_oracle : Peer → Address → Address → Hash → Option Address → Method (Unit {0})
unfolding enter_guard exit_guard invoke_oracle
notify_oracle peer issuer subject vc_hash none = pure tt
notify_oracle peer issuer subject vc_hash (some oracle) = do
  enter_guard
  invoke_oracle peer
      (record { oracle = oracle; issuer = issuer; subject = subject; vc_hash = vc_hash })
  exit_guard

unfoldable pub index_revocation : Address → Hash → Method (Unit {0})
index_revocation issuer vc_hash = do
  stored ← gets (λ s. s.issuer_revoked_list issuer)
  let list = unwrap_or stored []
  if contains vc_hash list
      then pure tt
      else modify (λ s. record s {
        issuer_revoked_list = put issuer (push_back list vc_hash) s.issuer_revoked_list;
      })

unfoldable pub revoke : Peer → Address → Address → Hash → Method (Unit {0})
unfolding ensure_not_paused claim_issuer mark_revoked notify_oracle index_revocation
revoke peer issuer subject vc_hash = do
  ensure_not_paused
  require_auth issuer
  registered ← gets (λ s. s.registered_vc_issuer vc_hash)
  claim_issuer issuer vc_hash registered
  mark_revoked issuer vc_hash
  oracle ← gets (λ s. s.identity_oracle_id)
  notify_oracle peer issuer subject vc_hash oracle
  index_revocation issuer vc_hash
  emit (Event.revoked issuer vc_hash)

-- The `for` loop of `batch_revoke`, over its local `list` and `list_modified`.
unfoldable pub revoke_each : Address → List Hash → List Hash → Bool → Method (List Hash × Bool)
unfolding claim_issuer mark_revoked
revoke_each issuer [] list list_modified = pure (list, list_modified)
revoke_each issuer (vc_hash ∷ rest) list list_modified = do
  registered ← gets (λ s. s.registered_vc_issuer vc_hash)
  claim_issuer issuer vc_hash registered
  mark_revoked issuer vc_hash
  emit (Event.revoked issuer vc_hash)
  revoke_each issuer rest (if contains vc_hash list then list else push_back list vc_hash)
      (if contains vc_hash list then list_modified else true)

unfoldable pub batch_revoke : Address → List Hash → Method (Unit {0})
unfolding ensure_not_paused revoke_each
batch_revoke issuer vc_hashes = do
  ensure_not_paused
  require_auth issuer
  limit ← gets (λ s. s.batch_limit)
  fail_if (ltb (unwrap_or limit max_batch_size) (length vc_hashes)) batch_too_large
  stored ← gets (λ s. s.issuer_revoked_list issuer)
  (list, list_modified) ← revoke_each issuer vc_hashes (unwrap_or stored []) false
  if list_modified
      then modify (λ s. record s { issuer_revoked_list = put issuer list s.issuer_revoked_list })
      else pure tt
  emit (Event.batch_rev issuer (length vc_hashes))
