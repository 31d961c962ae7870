-- ===== src/IdentityOracle/Admin.antt =====
-- Administration and issuers in contracts/identity-oracle/src/lib.rs.
use stellar_did_credit.Base.{
  Bool, List, Map, Option, [], false, if◌then◌else◌, is_some, leb, ltb, nat_eq, none, not,
  push_back, put, some, true, unwrap_or, ℕ, ◌==◌, ◌||◌, ◌∷◌,
}
use stellar_did_credit.Host.{
  Address, Hash, asks, fail, fail_if, gets, modify, pure, require_auth, ◌>>=◌, ◌>>◌,
}
use stellar_did_credit.IdentityOracle.State.{
  Event, Identity, Method, RegistryClient, already_initialized, emit, ensure_not_paused,
  invalid_issuer_tier, invalid_revocation_registry, no_pending_admin, not_authorized, require_admin,
  validate_revocation_registry_ref,
}

unfoldable pub initialize : Address → Method (Unit {0})
initialize admin = do
  stored ← gets (λ s. s.admin)
  fail_if (is_some stored) already_initialized
  require_auth admin
  modify (λ s. record s { admin = some admin })
  modify (λ s. record s { storage_version = some 2 })
  emit (Event.initialized admin)

unfoldable pub pause : Method (Unit {0})
unfolding require_admin
pause = do require_admin; modify (λ s. record s { paused = some true }); emit Event.paused

unfoldable pub unpause : Method (Unit {0})
unfolding require_admin
unpause = do require_admin; modify (λ s. record s { paused = some false }); emit Event.unpaused

unfoldable pub migrate : Method (Unit {0})
unfolding require_admin
migrate = do
  require_admin
  version ← gets (λ s. s.storage_version)
  if leb 2 (unwrap_or version 1)
      then pure tt
      else modify (λ s. record s { storage_version = some 2 })

unfoldable pub set_revocation_registry : RegistryClient → Address → Method (Unit {0})
unfolding ensure_not_paused require_admin validate_revocation_registry_ref
set_revocation_registry client registry_id = do
  ensure_not_paused
  require_admin
  fail_if (not (validate_revocation_registry_ref client registry_id)) invalid_revocation_registry
  this ← asks (λ env. env.current_contract)
  fail_if (not (client.set_identity_oracle registry_id this)) invalid_revocation_registry
  modify (λ s. record s { revocation_registry_id = some registry_id })

unfoldable pub register_issuer : Address → Method (Unit {0})
unfolding require_admin
register_issuer issuer = do
  require_admin
  trusted ← gets (λ s. s.trusted_issuer issuer)
  stored ← gets (λ s. s.issuers_index)
  if unwrap_or trusted false
      then pure tt
      else modify (λ s. record s { issuers_index = some (push_back (unwrap_or stored []) issuer) })
  modify (λ s. record s { trusted_issuer = put issuer true s.trusted_issuer })
  emit (Event.iss_reg issuer)

-- The loop of `deregister_issuer` and `list_issuers`, over a local vector.
unfoldable pub push_trusted : Map Address Bool → List Address → List Address → List Address
push_trusted trusted [] kept = kept
push_trusted trusted (a ∷ rest) kept =
    push_trusted trusted rest (if unwrap_or (trusted a) false then push_back kept a else kept)

unfoldable pub deregister_issuer : Address → Method (Unit {0})
unfolding require_admin push_trusted
deregister_issuer issuer = do
  require_admin
  modify (λ s. record s { trusted_issuer = put issuer false s.trusted_issuer })
  compacted ← gets (λ s. push_trusted s.trusted_issuer (unwrap_or s.issuers_index []) [])
  modify (λ s. record s { issuers_index = some compacted })
  emit (Event.iss_de_reg issuer)

unfoldable pub list_issuers : Identity → List Address
unfolding push_trusted
list_issuers s = push_trusted s.trusted_issuer (unwrap_or s.issuers_index []) []

abbrev pub max_issuer_tier_bps : ℕ
max_issuer_tier_bps = 300

unfoldable pub set_issuer_tier : Address → Address → ℕ → Method (Unit {0})
unfolding ensure_not_paused require_admin
set_issuer_tier admin issuer weight_bps = do
  ensure_not_paused
  stored ← require_admin
  fail_if (not (admin == stored)) not_authorized
  fail_if (weight_bps == 0 || ltb max_issuer_tier_bps weight_bps) invalid_issuer_tier
  modify (λ s. record s { issuer_tier = put issuer weight_bps s.issuer_tier })
  emit (Event.iss_tier issuer weight_bps)

unfoldable pub propose_new_admin : Address → Method (Unit {0})
unfolding ensure_not_paused require_admin
propose_new_admin new_admin = do
  ensure_not_paused
  require_admin
  modify (λ s. record s { pending_admin = some new_admin })

-- The `match pending` of `accept_admin`.
abbrev check_pending : Address → Option Address → Method (Unit {0})
check_pending new_admin none = fail no_pending_admin
check_pending new_admin (some p) = fail_if (not (p == new_admin)) not_authorized

unfoldable pub accept_admin : Address → Method (Unit {0})
unfolding ensure_not_paused
accept_admin new_admin = do
  ensure_not_paused
  pending ← gets (λ s. s.pending_admin)
  check_pending new_admin pending
  require_auth new_admin
  modify (λ s. record s { admin = some new_admin })
  modify (λ s. record s { pending_admin = none })

unfoldable pub upgrade : Hash → Method (Unit {0})
unfolding ensure_not_paused require_admin
upgrade new_wasm_hash = do
  ensure_not_paused
  require_admin
  modify (λ s. record s { wasm = some new_wasm_hash })

unfoldable pub maintain_storage : Method (Unit {0})
unfolding ensure_not_paused require_admin
maintain_storage = do ensure_not_paused; require_admin; pure tt
