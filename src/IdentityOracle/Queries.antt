-- ===== src/IdentityOracle/Queries.antt =====
-- The queries of contracts/identity-oracle/src/lib.rs. Those that look at revocations ask the linked
-- registry, and may trap; `get_active_vc_count` may store what it counted.
use stellar_did_credit.Base.{
  Bool, List, Option, [], false, if◌then◌else◌, is_some, length, nat_eq, pair_eq, push_back,
  string_eq, true, unwrap_or, ℕ, ◌==◌, ◌∷◌,
}
use stellar_did_credit.Host.{Address, Hash, Symbol, gets, pure, ◌>>=◌}
use stellar_did_credit.Credential.{IdentityVcRecord}
use stellar_did_credit.IdentityOracle.State.{
  Bytes, Identity, Method, ProtocolStats, RegistryClient, anchors_of, is_record_revoked,
  load_protocol_stats, seed_active_vc_count, validate_revocation_registry_ref,
}

unfoldable pub is_deactivated : Identity → Address → Bool
is_deactivated s subject = unwrap_or (s.deactivated subject) false

-- The loop of `is_verified`, up to the first record that is not revoked.
unfoldable pub any_active : RegistryClient → List IdentityVcRecord → Method Bool
any_active client [] = pure false
any_active client (r ∷ rest) = do
  is_revoked ← is_record_revoked client r
  if is_revoked then any_active client rest else pure true

unfoldable pub is_verified : RegistryClient → Address → Method Bool
unfolding any_active is_deactivated
is_verified client subject = do
  deactivated ← gets (λ s. is_deactivated s subject)
  anchors ← gets (λ s. anchors_of s subject)
  if deactivated then pure false else any_active client anchors

-- The loop of `verify_vc`; the registry is asked only about a record with the hash.
unfoldable pub any_active_at : RegistryClient → Hash → List IdentityVcRecord → Method Bool
any_active_at client vc_hash [] = pure false
any_active_at client vc_hash (r ∷ rest) =
    if r.vc_hash == vc_hash
    then (do
      is_revoked ← is_record_revoked client r
      if is_revoked then any_active_at client vc_hash rest else pure true)
    else any_active_at client vc_hash rest

unfoldable pub verify_vc : RegistryClient → Address → Hash → Method Bool
unfolding any_active_at
verify_vc client subject vc_hash = do
  anchors ← gets (λ s. anchors_of s subject)
  any_active_at client vc_hash anchors

-- The loop of `get_vc_details`, over its local `active`.
unfoldable pub push_active_records :
    RegistryClient → List IdentityVcRecord → List IdentityVcRecord → Method (List IdentityVcRecord)
push_active_records client [] active = pure active
push_active_records client (r ∷ rest) active = do
  is_revoked ← is_record_revoked client r
  push_active_records client rest (if is_revoked then active else push_back active r)

unfoldable pub get_vc_details : RegistryClient → Address → Method (List IdentityVcRecord)
unfolding push_active_records
get_vc_details client subject = do
  anchors ← gets (λ s. anchors_of s subject)
  push_active_records client anchors []

unfoldable pub get_active_vc_count : RegistryClient → Address → Method ℕ
unfolding seed_active_vc_count
get_active_vc_count client subject = do
  cached ← gets (λ s. s.active_vc_count subject)
  if is_some cached then pure (unwrap_or cached 0) else seed_active_vc_count client subject

unfoldable pub get_total_vc_count : Identity → Address → ℕ
get_total_vc_count s subject = length (anchors_of s subject)

unfoldable pub get_vc_credential_type : Identity → Address → Hash → Symbol
get_vc_credential_type s subject vc_hash =
    unwrap_or (s.vc_credential_type (subject, vc_hash)) "generic"

unfoldable pub get_issuer_tier : Identity → Address → ℕ
get_issuer_tier s issuer = unwrap_or (s.issuer_tier issuer) 100

unfoldable pub get_last_state_change_ledger : Identity → Address → Option ℕ
get_last_state_change_ledger s subject = s.last_state_change subject

unfoldable pub get_did_document : Identity → Address → Option Bytes
get_did_document s subject = s.did_document subject

unfoldable pub has_anchored_did : Identity → Address → Bool
has_anchored_did s subject = is_some (s.did_document subject)

-- The loop of `list_revoked_for_subject`, over its local `revoked`.
unfoldable pub push_revoked :
    RegistryClient → List IdentityVcRecord → List Hash → Method (List Hash)
push_revoked client [] revoked = pure revoked
push_revoked client (r ∷ rest) revoked = do
  is_revoked ← is_record_revoked client r
  push_revoked client rest (if is_revoked then push_back revoked r.vc_hash else revoked)

unfoldable pub list_revoked_for_subject : RegistryClient → Address → Method (List Hash)
unfolding push_revoked
list_revoked_for_subject client subject = do
  anchors ← gets (λ s. anchors_of s subject)
  push_revoked client anchors []

unfoldable pub get_vc_count : Identity → Address → ℕ
unfolding get_total_vc_count
get_vc_count s subject = get_total_vc_count s subject

unfoldable pub is_paused : Identity → Bool
is_paused s = unwrap_or s.paused false

unfoldable pub get_admin : Identity → Option Address
get_admin s = s.admin

unfoldable pub get_revocation_registry : Identity → Option Address
get_revocation_registry s = s.revocation_registry_id

unfoldable pub get_protocol_stats : Identity → ProtocolStats
unfolding load_protocol_stats
get_protocol_stats s = load_protocol_stats s

unfoldable pub validate_revocation_registry : RegistryClient → Address → Bool
unfolding validate_revocation_registry_ref
validate_revocation_registry client registry_id =
    validate_revocation_registry_ref client registry_id
