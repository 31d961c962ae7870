-- ===== src/IdentityOracle/State.antt =====
-- Storage, errors, events and the private helpers of contracts/identity-oracle/src/lib.rs.
use stellar_did_credit.Base.{
  Bool, List, Map, Option, [], checked_add, false, if◌then◌else◌, is_some, nat_eq, none, pair_eq,
  put, some, string_eq, true, u32_max, u64_max, unwrap_or, ℕ, ◌∷◌,
}
use stellar_did_credit.Host.{
  Address, Call, Hash, Symbol, asks, expect, fail_if, gets, modify, pure, require_auth, ◌>>=◌, ◌>>◌,
}
use stellar_did_credit.Credential.{IdentityVcRecord}

pub data IdentityOracleError : Type 0 where
  already_initialized not_authorized issuer_not_registered invalid_cid no_pending_admin duplicate_vc
        vc_not_found contract_paused invalid_revocation_registry vc_limit_reached
        invalid_issuer_tier :
      IdentityOracleError

-- The bytes of a host string.
abbrev pub Bytes : Type 0
Bytes = List ℕ

pub data Event : Type 0 where
  initialized : Address → Event
  paused unpaused : Event
  iss_reg iss_de_reg : Address → Event
  did_anch : Address → Bytes → Event
  did_deact : Address → Event
  vc_anch : Address → Address → Hash → Event
  id_deact : Address → ℕ → Event
  id_react : Address → Event
  iss_tier : Address → ℕ → Event

pub record ProtocolStats : Type 0 where
  pub total_dids_anchored : ℕ
  pub total_vcs_anchored : ℕ
  pub total_vcs_revoked : ℕ

-- A field for each constructor of `DataKey`; then what leaves the contract, newest first.
pub record Identity : Type 0 where
  pub admin : Option Address
  pub paused : Option Bool
  pub pending_admin : Option Address
  pub storage_version : Option ℕ
  pub issuers_index : Option (List Address)
  pub trusted_issuer : Map Address Bool
  pub did_document : Map Address Bytes
  pub vc_anchors : Map Address (List IdentityVcRecord)
  pub active_vc_count : Map Address ℕ
  pub revocation_registry_id : Option Address
  pub issuer_tier : Map Address ℕ
  pub vc_credential_type : Map (Address × Hash) Symbol
  pub protocol_stats : Option ProtocolStats
  pub deactivated : Map Address Bool
  pub last_state_change : Map Address ℕ
  pub wasm : Option Hash
  pub events : List Event

-- A contract that was just deployed.
abbrev pub deployed : Identity
deployed = record {
  admin = none;
  paused = none;
  pending_admin = none;
  storage_version = none;
  issuers_index = none;
  trusted_issuer = λ _. none;
  did_document = λ _. none;
  vc_anchors = λ _. none;
  active_vc_count = λ _. none;
  revocation_registry_id = none;
  issuer_tier = λ _. none;
  vc_credential_type = λ _. none;
  protocol_stats = none;
  deactivated = λ _. none;
  last_state_change = λ _. none;
  wasm = none;
  events = [];
}

abbrev pub Method : Type 0 → Type 0
Method A = Call IdentityOracleError Identity A

abbrev pub emit : Event → Method (Unit {0})
emit e = modify (λ s. record s { events = e ∷ s.events })

-- The entry points of the revocation registry that this contract invokes: first the address of
-- the registry, then the argument. `none` and `false` stand for an invocation that fails.
pub record RegistryClient : Type 0 where
  pub is_revoked : Address → Hash → Option Bool
  pub set_identity_oracle : Address → Address → Bool

unfoldable pub require_admin : Method Address
require_admin = do
  stored ← gets (λ s. s.admin)
  admin ← expect stored
  require_auth admin
  pure admin

unfoldable pub ensure_not_paused : Method (Unit {0})
ensure_not_paused = do flag ← gets (λ s. s.paused); fail_if (unwrap_or flag false) contract_paused

-- Whether the candidate answers `is_revoked` for the hash of zeros.
unfoldable pub validate_revocation_registry_ref : RegistryClient → Address → Bool
validate_revocation_registry_ref client registry_id = is_some (client.is_revoked registry_id 0)

unfoldable pub load_protocol_stats : Identity → ProtocolStats
load_protocol_stats s =
    unwrap_or s.protocol_stats
      (record { total_dids_anchored = 0; total_vcs_anchored = 0; total_vcs_revoked = 0 })

unfoldable pub increment_dids_anchored : Method (Unit {0})
unfolding load_protocol_stats
increment_dids_anchored = do
  stats ← gets load_protocol_stats
  n ← expect (checked_add u64_max stats.total_dids_anchored 1)
  modify (λ s. record s { protocol_stats = some (record stats { total_dids_anchored = n }) })

unfoldable pub increment_vcs_anchored : Method (Unit {0})
unfolding load_protocol_stats
increment_vcs_anchored = do
  stats ← gets load_protocol_stats
  n ← expect (checked_add u64_max stats.total_vcs_anchored 1)
  modify (λ s. record s { protocol_stats = some (record stats { total_vcs_anchored = n }) })

unfoldable pub increment_vcs_revoked : ℕ → Method (Unit {0})
unfolding load_protocol_stats
increment_vcs_revoked count = do
  stats ← gets load_protocol_stats
  n ← expect (checked_add u64_max stats.total_vcs_revoked count)
  modify (λ s. record s { protocol_stats = some (record stats { total_vcs_revoked = n }) })

-- What the linked registry says of a hash.
unfoldable pub ask_registry : RegistryClient → Hash → Option Address → Method Bool
ask_registry client vc_hash none = pure false
ask_registry client vc_hash (some registry_id) = expect (client.is_revoked registry_id vc_hash)

unfoldable pub is_record_revoked : RegistryClient → IdentityVcRecord → Method Bool
unfolding ask_registry
is_record_revoked client r =
    if r.revoked
    then pure true
    else do registry ← gets (λ s. s.revocation_registry_id); ask_registry client r.vc_hash registry

abbrev pub anchors_of : Identity → Address → List IdentityVcRecord
anchors_of s subject = unwrap_or (s.vc_anchors subject) []

-- The loop of `compute_active_vc_count`.
unfoldable pub count_active : RegistryClient → List IdentityVcRecord → ℕ → Method ℕ
count_active client [] count = pure count
count_active client (r ∷ rest) count = do
  is_revoked ← is_record_revoked client r
  next ← if is_revoked then pure count else expect (checked_add u32_max count 1)
  count_active client rest next

unfoldable pub compute_active_vc_count : RegistryClient → Address → Method ℕ
unfolding count_active
compute_active_vc_count client subject = do
  anchors ← gets (λ s. anchors_of s subject)
  count_active client anchors 0

unfoldable pub seed_active_vc_count : RegistryClient → Address → Method ℕ
unfolding compute_active_vc_count
seed_active_vc_count client subject = do
  count ← compute_active_vc_count client subject
  modify (λ s. record s { active_vc_count = put subject count s.active_vc_count })
  pure count

unfoldable pub record_last_state_change : Address → Method (Unit {0})
record_last_state_change subject = do
  ledger ← asks (λ env. env.sequence)
  modify (λ s. record s { last_state_change = put subject ledger s.last_state_change })
