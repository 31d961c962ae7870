-- ===== src/IdentityOracle/Credentials.antt =====
-- Credentials in contracts/identity-oracle/src/lib.rs: anchored by trusted issuers, marked as revoked.
use stellar_did_credit.Base.{
  Bool, List, Option, [], as_u32, checked_add, checked_sub, false, if◌then◌else◌, is_some, leb,
  nat_eq, none, not, pair_eq, push_back, put, some, string_eq, true, u32_max, unwrap_or, ℕ, ◌&&◌,
  ◌+◌, ◌==◌, ◌||◌, ◌∷◌,
}
use stellar_did_credit.Host.{
  Address, Hash, Symbol, asks, expect, fail_if, gets, modify, pure, require_auth, ◌>>=◌, ◌>>◌,
}
use stellar_did_credit.Credential.{IdentityVcRecord}
use stellar_did_credit.IdentityOracle.State.{
  Event, Method, RegistryClient, anchors_of, emit, ensure_not_paused, increment_vcs_anchored,
  increment_vcs_revoked, is_record_revoked, issuer_not_registered, record_last_state_change,
  seed_active_vc_count, vc_limit_reached, vc_not_found,
}

abbrev pub max_vcs_per_subject : ℕ
max_vcs_per_subject = 100

abbrev pub is_match : Address → Hash → IdentityVcRecord → Bool
is_match issuer vc_hash r = r.vc_hash == vc_hash && r.issuer == issuer

-- The loop that looks for the credential of the issuer.
unfoldable pub has_anchor : Address → Hash → List IdentityVcRecord → Bool
has_anchor issuer vc_hash [] = false
has_anchor issuer vc_hash (r ∷ rest) = is_match issuer vc_hash r || has_anchor issuer vc_hash rest

-- `.filter(|r| !r.revoked && !is_record_revoked(&env, r)).count()`
unfoldable pub filter_count : RegistryClient → List IdentityVcRecord → ℕ → Method ℕ
filter_count client [] count = pure count
filter_count client (r ∷ rest) count = do
  skipped ← if r.revoked then pure true else is_record_revoked client r
  filter_count client rest (if skipped then count else count + 1)

-- The cached number of active credentials after one more, or a fresh count if none is cached.
unfoldable pub add_active : RegistryClient → Address → Bool → Option ℕ → Method (Unit {0})
unfolding seed_active_vc_count
add_active client subject is_active none = seed_active_vc_count client subject >> pure tt
add_active client subject is_active (some cached) = do
  active_count ← if is_active then expect (checked_add u32_max cached 1) else pure cached
  modify (λ s. record s { active_vc_count = put subject active_count s.active_vc_count })

-- The part of `anchor_vc_typed` for a credential that is not there yet.
unfoldable pub push_anchor :
    RegistryClient → Address → Address → Hash → Symbol → List IdentityVcRecord → Method (Unit {0})
unfolding filter_count record_last_state_change add_active increment_vcs_anchored
push_anchor client issuer subject vc_hash credential_type anchors = do
  active ← filter_count client anchors 0
  fail_if (leb max_vcs_per_subject (as_u32 active)) vc_limit_reached
  now ← asks (λ env. env.timestamp)
  let added : IdentityVcRecord = record {
    vc_hash = vc_hash;
    issuer = issuer;
    anchored_at = now;
    revoked = false;
  }
  is_revoked ← is_record_revoked client added
  modify (λ s. record s {
    vc_credential_type = put (subject, vc_hash) credential_type s.vc_credential_type;
  })
  modify (λ s. record s { vc_anchors = put subject (push_back anchors added) s.vc_anchors })
  record_last_state_change subject
  cached ← gets (λ s. s.active_vc_count subject)
  add_active client subject (not is_revoked) cached
  increment_vcs_anchored
  emit (Event.vc_anch issuer subject vc_hash)

unfoldable pub anchor_vc_typed :
    RegistryClient → Address → Address → Hash → Symbol → Method (Unit {0})
unfolding ensure_not_paused has_anchor
anchor_vc_typed client issuer subject vc_hash credential_type = do
  ensure_not_paused
  require_auth issuer
  trusted ← gets (λ s. s.trusted_issuer issuer)
  fail_if (not (unwrap_or trusted false)) issuer_not_registered
  anchors ← gets (λ s. anchors_of s subject)
  if has_anchor issuer vc_hash anchors
      then pure tt
      else push_anchor client issuer subject vc_hash credential_type anchors

unfoldable pub anchor_vc : RegistryClient → Address → Address → Hash → Method (Unit {0})
unfolding anchor_vc_typed
anchor_vc client issuer subject vc_hash = anchor_vc_typed client issuer subject vc_hash "generic"

-- The local variables of `mark_vc_revoked`.
pub record Marking : Type 0 where
  pub updated : List IdentityVcRecord
  pub found : Bool
  pub transitioned_to_revoked : Bool

abbrev pub mark_one : Address → Hash → IdentityVcRecord → Marking → Marking
mark_one issuer vc_hash r m =
    if is_match issuer vc_hash r
    then record {
      updated = push_back m.updated (record r { revoked = true });
      found = true;
      transitioned_to_revoked = if r.revoked then m.transitioned_to_revoked else true;
    }
    else record m { updated = push_back m.updated r }

unfoldable pub mark_each : Address → Hash → List IdentityVcRecord → Marking → Marking
mark_each issuer vc_hash [] m = m
mark_each issuer vc_hash (r ∷ rest) m = mark_each issuer vc_hash rest (mark_one issuer vc_hash r m)

-- The cached number of active credentials after one less, or a fresh count if none is cached.
unfoldable pub drop_active : RegistryClient → Address → Option ℕ → Method (Unit {0})
unfolding seed_active_vc_count
drop_active client subject none = seed_active_vc_count client subject >> pure tt
drop_active client subject (some cached) = do
  active_count ← expect (checked_sub cached 1)
  modify (λ s. record s { active_vc_count = put subject active_count s.active_vc_count })

unfoldable pub mark_vc_revoked : RegistryClient → Address → Address → Hash → Method (Unit {0})
unfolding ensure_not_paused mark_each record_last_state_change increment_vcs_revoked drop_active
mark_vc_revoked client issuer subject vc_hash = do
  ensure_not_paused
  require_auth issuer
  anchors ← gets (λ s. anchors_of s subject)
  let m =
      mark_each issuer vc_hash anchors
        (record { updated = []; found = false; transitioned_to_revoked = false })
  fail_if (not m.found) vc_not_found
  modify (λ s. record s { vc_anchors = put subject m.updated s.vc_anchors })
  if m.transitioned_to_revoked
      then (do
        record_last_state_change subject
        increment_vcs_revoked 1
        cached ← gets (λ s. s.active_vc_count subject)
        drop_active client subject cached)
      else (do
        cached ← gets (λ s. s.active_vc_count subject)
        if is_some cached then pure tt else seed_active_vc_count client subject >> pure tt)
