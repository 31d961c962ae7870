-- ===== src/IdentityOracle/Identities.antt =====
-- Identities in contracts/identity-oracle/src/lib.rs: documents, deactivation and reactivation.
use stellar_did_credit.Base.{
  Bool, List, [], checked_add, false, if◌then◌else◌, is_empty, leb, length, ltb, nat_eq, not,
  push_back, put, remove, true, u32_max, ℕ, ◌&&◌, ◌==◌, ◌||◌, ◌∷◌,
}
use stellar_did_credit.Host.{
  Address, expect, fail_if, gets, modify, pure, require_auth, ◌>>=◌, ◌>>◌,
}
use stellar_did_credit.Credential.{IdentityVcRecord}
use stellar_did_credit.IdentityOracle.State.{
  Bytes, Event, Method, anchors_of, emit, ensure_not_paused, increment_dids_anchored,
  increment_vcs_revoked, invalid_cid, record_last_state_change,
}

abbrev pub max_cid_length : ℕ
max_cid_length = 128

abbrev has_prefix : Bytes → Bytes → Bool
has_prefix s [] = true
has_prefix [] (p ∷ ps) = false
has_prefix (b ∷ bs) (p ∷ ps) = b == p && has_prefix bs ps

-- `ipfs://`, `bafy` and `Qm`
abbrev is_cid : Bytes → Bool
is_cid s =
    has_prefix s (b'i' ∷ b'p' ∷ b'f' ∷ b's' ∷ b':' ∷ b'/' ∷ b'/' ∷ [])
    || has_prefix s (b'b' ∷ b'a' ∷ b'f' ∷ b'y' ∷ [])
    || has_prefix s (b'Q' ∷ b'm' ∷ [])

unfoldable pub anchor_did : Address → Bytes → Method (Unit {0})
unfolding ensure_not_paused record_last_state_change increment_dids_anchored
anchor_did subject did_doc_cid = do
  ensure_not_paused
  require_auth subject
  fail_if (not (leb 7 (length did_doc_cid) && leb (length did_doc_cid) max_cid_length)) invalid_cid
  fail_if (not (is_cid did_doc_cid)) invalid_cid
  modify (λ s. record s { did_document = put subject did_doc_cid s.did_document })
  record_last_state_change subject
  increment_dids_anchored
  emit (Event.did_anch subject did_doc_cid)

-- The loop of `deactivate_core`, over its local `updated` and `revoked_count`.
unfoldable pub revoke_records :
    List IdentityVcRecord → List IdentityVcRecord → ℕ → Method (List IdentityVcRecord × ℕ)
revoke_records [] updated revoked_count = pure (updated, revoked_count)
revoke_records (r ∷ rest) updated revoked_count = do
  next ← if r.revoked then pure revoked_count else expect (checked_add u32_max revoked_count 1)
  revoke_records rest (push_back updated (record r { revoked = true })) next

unfoldable pub deactivate_core : Address → Method ℕ
unfolding revoke_records increment_vcs_revoked record_last_state_change
deactivate_core subject = do
  modify (λ s. record s { deactivated = put subject true s.deactivated })
  anchors ← gets (λ s. anchors_of s subject)
  (updated, revoked_count) ← revoke_records anchors [] 0
  if is_empty anchors
      then pure tt
      else modify (λ s. record s { vc_anchors = put subject updated s.vc_anchors })
  if ltb 0 revoked_count then increment_vcs_revoked revoked_count else pure tt
  modify (λ s. record s { active_vc_count = put subject 0 s.active_vc_count })
  record_last_state_change subject
  pure revoked_count

unfoldable pub deactivate_did : Address → Method (Unit {0})
unfolding deactivate_core
deactivate_did subject = do
  require_auth subject
  deactivate_core subject
  modify (λ s. record s { did_document = remove subject s.did_document })
  emit (Event.did_deact subject)

unfoldable pub deactivate_identity : Address → Method ℕ
unfolding deactivate_core
deactivate_identity subject = do
  require_auth subject
  revoked_count ← deactivate_core subject
  emit (Event.id_deact subject revoked_count)
  pure revoked_count

unfoldable pub reactivate_identity : Address → Method (Unit {0})
unfolding record_last_state_change
reactivate_identity subject = do
  require_auth subject
  modify (λ s. record s { deactivated = remove subject s.deactivated })
  record_last_state_change subject
  emit (Event.id_react subject)
