-- ===== src/RevocationRegistry/Admin.antt =====
-- The administrative entry points of contracts/revocation-registry/src/lib.rs.
use stellar_did_credit.Base.{
  Option, false, is_some, ltb, nat_eq, none, not, some, true, ℕ, ◌==◌, ◌||◌,
}
use stellar_did_credit.Host.{
  Address, Hash, fail, fail_if, gets, modify, pure, require_auth, ◌>>=◌, ◌>>◌,
}
use stellar_did_credit.RevocationRegistry.State.{
  Event, Method, already_initialized, emit, ensure_not_paused, invalid_batch_limit, max_batch_size,
  no_pending_admin, not_authorized, require_admin,
}

unfoldable pub initialize : Address → Method (Unit {0})
initialize admin = do
  stored ← gets (λ s. s.admin)
  fail_if (is_some stored) already_initialized
  require_auth admin
  modify (λ s. record s { admin = some admin })
  emit (Event.initialized admin)
  modify (λ s. record s { batch_limit = some max_batch_size })

unfoldable pub pause : Method (Unit {0})
unfolding require_admin
pause = do require_admin; modify (λ s. record s { paused = some true }); emit Event.paused

unfoldable pub unpause : Method (Unit {0})
unfolding require_admin
unpause = do require_admin; modify (λ s. record s { paused = some false }); emit Event.unpaused

unfoldable pub set_batch_limit : Address → ℕ → Method (Unit {0})
unfolding require_admin ensure_not_paused
set_batch_limit admin limit = do
  ensure_not_paused
  stored_admin ← require_admin
  fail_if (not (admin == stored_admin)) not_authorized
  fail_if (limit == 0 || ltb max_batch_size limit) invalid_batch_limit
  modify (λ s. record s { batch_limit = some limit })

unfoldable pub set_identity_oracle : Address → Method (Unit {0})
unfolding require_admin ensure_not_paused
set_identity_oracle oracle = do
  ensure_not_paused
  require_admin
  modify (λ s. record s { identity_oracle_id = some oracle })
  emit (Event.id_o_set oracle)

unfoldable pub propose_new_admin : Address → Method (Unit {0})
unfolding require_admin
propose_new_admin new_admin = do
  require_admin
  modify (λ s. record s { pending_admin = some new_admin })

-- The `match pending` of `accept_admin`.
abbrev check_pending : Address → Option Address → Method (Unit {0})
check_pending new_admin none = fail no_pending_admin
check_pending new_admin (some p) = fail_if (not (p == new_admin)) not_authorized

unfoldable pub accept_admin : Address → Method (Unit {0})
unfolding ensure_not_paused
accept_admin new_admin = do
  ensure_not_paused
  pending ← gets (λ s. s.pending_admin)
  check_pending new_admin pending
  require_auth new_admin
  modify (λ s. record s { admin = some new_admin })
  modify (λ s. record s { pending_admin = none })

unfoldable pub maintain_storage : Method (Unit {0})
unfolding require_admin ensure_not_paused
maintain_storage = do ensure_not_paused; require_admin; pure tt

unfoldable pub upgrade : Hash → Method (Unit {0})
unfolding require_admin ensure_not_paused
upgrade new_wasm_hash = do
  ensure_not_paused
  require_admin
  modify (λ s. record s { wasm = some new_wasm_hash })
