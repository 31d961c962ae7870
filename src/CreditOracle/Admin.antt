-- ===== src/CreditOracle/Admin.antt =====
-- Initialization, administration and configuration in contracts/credit-oracle/src/lib.rs.
use stellar_did_credit.Base.{
  Bool, List, Option, [], false, if◌then◌else◌, is_some, length, ltb, nat_eq, none, not, pair_eq,
  put, some, string_eq, true, unwrap_or, ℕ, ◌&&◌, ◌==◌, ◌||◌, ◌∷◌,
}
use stellar_did_credit.Host.{
  Address, Env, Hash, Symbol, asks, expect, fail_if, gets, modify, ok_or, pure, require_auth, ◌>>=◌,
  ◌>>◌,
}
use stellar_did_credit.CreditOracle.Types.{
  IdentityClient, ProtocolStats, RecencyDecayConfig, ScoringWeights, already_initialized,
  invalid_compute_cooldown, invalid_identity_oracle, invalid_recency_config, not_authorized,
}
use stellar_did_credit.CreditOracle.Scoring.{bps_denominator}
use stellar_did_credit.CreditOracle.State.{
  Event, Method, Oracle, emit, expect_admin, load_protocol_stats, load_recency_config,
}

abbrev pub default_weights : ScoringWeights
default_weights = record { vc_weight = 40; tx_weight = 30; repayment_weight = 30 }

unfoldable pub initialize : Address → Method (Unit {0})
initialize admin = do
  stored ← gets (λ s. s.admin)
  fail_if (is_some stored) already_initialized
  require_auth admin
  modify (λ s. record s { admin = some admin })
  modify (λ s. record s {
    config = some (record { vc_weight = 40; tx_weight = 30; repayment_weight = 30 });
  })
  modify (λ s. record s { compute_cooldown_ledgers = some 1 })
  modify (λ s. record s { storage_version = some 2 })
  emit (Event.initialized admin)

unfoldable pub get_compute_cooldown_ledgers : Oracle → ℕ
get_compute_cooldown_ledgers s = unwrap_or s.compute_cooldown_ledgers 1

abbrev pub max_compute_cooldown_ledgers : ℕ
max_compute_cooldown_ledgers = 86400

-- Authorization is asked for after the range check.
unfoldable pub set_compute_cooldown_ledgers : Address → ℕ → Method (Unit {0})
set_compute_cooldown_ledgers admin ledgers = do
  stored ← gets (λ s. s.admin)
  stored_admin ← expect stored
  fail_if (not (admin == stored_admin)) not_authorized
  fail_if (ledgers == 0 || ltb max_compute_cooldown_ledgers ledgers) invalid_compute_cooldown
  require_auth admin
  modify (λ s. record s { compute_cooldown_ledgers = some ledgers })
  emit (Event.cooldown_updated ledgers)

unfoldable pub pause : Address → Method (Unit {0})
pause admin = do
  stored ← gets (λ s. s.admin)
  stored_admin ← ok_or stored not_authorized
  fail_if (not (admin == stored_admin)) not_authorized
  require_auth admin
  modify (λ s. record s { paused = some true })
  emit Event.paused

unfoldable pub unpause : Address → Method (Unit {0})
unpause admin = do
  stored ← gets (λ s. s.admin)
  stored_admin ← ok_or stored not_authorized
  fail_if (not (admin == stored_admin)) not_authorized
  require_auth admin
  modify (λ s. record s { paused = some false })
  emit Event.unpaused

unfoldable pub is_paused : Oracle → Bool
is_paused s = unwrap_or s.paused false

unfoldable pub set_vc_type_weight : Address → Symbol → ℕ → Method (Unit {0})
unfolding expect_admin
set_vc_type_weight admin type_name weight = do
  expect_admin admin
  modify (λ s. record s { vc_weight = put type_name weight s.vc_weight })
  emit (Event.vc_wt_set type_name weight)

unfoldable pub get_vc_type_weight : Oracle → Symbol → ℕ
get_vc_type_weight s type_name = unwrap_or (s.vc_weight type_name) 100

unfoldable pub set_recency_decay : Address → Bool → ℕ → ℕ → Method (Unit {0})
unfolding expect_admin
set_recency_decay admin enabled decay_bps_per_day min_recency_bps = do
  expect_admin admin
  fail_if (ltb bps_denominator min_recency_bps) invalid_recency_config
  modify (λ s. record s { recency_decay_enabled = some enabled })
  modify (λ s. record s { decay_bps_per_day = some decay_bps_per_day })
  modify (λ s. record s { min_recency_bps = some min_recency_bps })
  emit (Event.rec_decay enabled decay_bps_per_day min_recency_bps)

unfoldable pub get_recency_decay : Oracle → RecencyDecayConfig
unfolding load_recency_config
get_recency_decay s = load_recency_config s

-- Whether the candidate answers `get_active_vc_count` for the contract's own address.
unfoldable pub validate_identity_oracle_ref : IdentityClient → Address → Method Bool
validate_identity_oracle_ref client identity_oracle_id = do
  dummy_subject ← asks (λ env. env.current_contract)
  pure (is_some (client.get_active_vc_count identity_oracle_id dummy_subject))

unfoldable pub set_identity_oracle : IdentityClient → Address → Address → Method (Unit {0})
unfolding expect_admin validate_identity_oracle_ref
set_identity_oracle client admin identity_oracle_id = do
  expect_admin admin
  valid ← validate_identity_oracle_ref client identity_oracle_id
  fail_if (not valid) invalid_identity_oracle
  modify (λ s. record s { identity_oracle_id = some identity_oracle_id })
  emit (Event.identity_oracle_updated identity_oracle_id)

unfoldable pub get_admin : Oracle → Option Address
get_admin s = s.admin

unfoldable pub get_identity_oracle : Oracle → Option Address
get_identity_oracle s = s.identity_oracle_id

unfoldable pub get_governance : Oracle → Option Address
get_governance s = s.governance_id

unfoldable pub propose_new_admin : Address → Method (Unit {0})
propose_new_admin new_admin = do
  stored ← gets (λ s. s.admin)
  stored_admin ← expect stored
  require_auth stored_admin
  modify (λ s. record s { pending_admin = some new_admin })
  emit (Event.adm_prop new_admin)

-- `buf[0] == b'C'`
abbrev begins_with_c : List ℕ → Bool
begins_with_c [] = false
begins_with_c (b ∷ bs) = b == b'C'

-- A strkey of 56 bytes that begins with `C`.
unfoldable pub is_contract_address : Env → Address → Bool
is_contract_address env addr = length (env.strkey addr) == 56 && begins_with_c (env.strkey addr)

unfoldable pub accept_admin : Address → Method (Unit {0})
unfolding is_contract_address
accept_admin new_admin = do
  require_auth new_admin
  stored ← gets (λ s. s.pending_admin)
  pending_admin ← expect stored
  fail_if (not (new_admin == pending_admin)) not_authorized
  modify (λ s. record s { admin = some new_admin })
  modify (λ s. record s { pending_admin = none })
  contract ← asks (λ env. is_contract_address env new_admin)
  if contract
      then modify (λ s. record s { governance_id = some new_admin })
      else modify (λ s. record s { governance_id = none })
  emit (Event.adm_accept new_admin)

unfoldable pub upgrade : Address → Hash → Method (Unit {0})
unfolding expect_admin
upgrade admin new_wasm_hash = do
  expect_admin admin
  modify (λ s. record s { wasm = some new_wasm_hash })

unfoldable pub get_protocol_stats : Oracle → ProtocolStats
unfolding load_protocol_stats
get_protocol_stats s = load_protocol_stats s
