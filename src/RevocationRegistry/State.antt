-- ===== src/RevocationRegistry/State.antt =====
-- Storage, errors, events and the private helpers of contracts/revocation-registry/src/lib.rs.
use stellar_did_credit.Base.{
  Bool, List, Map, Option, [], false, is_some, none, some, true, unwrap_or, ℕ, ◌∷◌,
}
use stellar_did_credit.Host.{
  Address, Call, Hash, expect, fail_if, gets, modify, pure, require_auth, ◌>>=◌, ◌>>◌,
}

pub data RevocationRegistryError : Type 0 where
  already_initialized not_authorized issuer_mismatch no_pending_admin batch_too_large
        contract_paused reentrancy_detected invalid_batch_limit :
      RevocationRegistryError

pub data Event : Type 0 where
  initialized : Address → Event
  paused unpaused : Event
  id_o_set : Address → Event
  revoked : Address → Hash → Event
  batch_rev : Address → ℕ → Event

-- A call of the identity oracle's `mark_vc_revoked(issuer, subject, vc_hash)`.
pub record Notice : Type 0 where
  pub oracle : Address
  pub issuer : Address
  pub subject : Address
  pub vc_hash : Hash

-- A field for each constructor of `RevocationKey`; then what leaves the contract, newest first.
pub record Registry : Type 0 where
  pub admin : Option Address
  pub paused : Option Bool
  pub pending_admin : Option Address
  pub identity_oracle_id : Option Address
  pub registered_vc_issuer : Map Hash Address
  pub status : Map Hash Bool
  pub issuer_of_vc : Map Hash Address
  pub issuer_revoked_list : Map Address (List Hash)
  pub reentrancy_lock : Option Bool
  pub batch_limit : Option ℕ
  pub wasm : Option Hash
  pub events : List Event
  pub notices : List Notice

-- A contract that was just deployed.
abbrev pub deployed : Registry
deployed = record {
  admin = none;
  paused = none;
  pending_admin = none;
  identity_oracle_id = none;
  registered_vc_issuer = λ _. none;
  status = λ _. none;
  issuer_of_vc = λ _. none;
  issuer_revoked_list = λ _. none;
  reentrancy_lock = none;
  batch_limit = none;
  wasm = none;
  events = [];
  notices = [];
}

abbrev pub Method : Type 0 → Type 0
Method A = Call RevocationRegistryError Registry A

abbrev pub max_batch_size : ℕ
max_batch_size = 100

abbrev pub emit : Event → Method (Unit {0})
emit e = modify (λ s. record s { events = e ∷ s.events })

unfoldable pub require_admin : Method Address
require_admin = do
  stored ← gets (λ s. s.admin)
  admin ← expect stored
  require_auth admin
  pure admin

unfoldable pub ensure_not_paused : Method (Unit {0})
ensure_not_paused = do flag ← gets (λ s. s.paused); fail_if (unwrap_or flag false) contract_paused

unfoldable pub enter_guard : Method (Unit {0})
enter_guard = do
  lock ← gets (λ s. s.reentrancy_lock)
  fail_if (is_some lock) reentrancy_detected
  modify (λ s. record s { reentrancy_lock = some true })

unfoldable pub exit_guard : Method (Unit {0})
exit_guard = modify (λ s. record s { reentrancy_lock = none })
