-- ===== src/IdentityOracle/Deactivation.antt =====
-- What a deactivation leaves, also after a reactivation.
use mathlib.Core.List.{append-nil, append_assoc}
use stellar_did_credit.Base.{
  Bool-cases, List, [], arith, false, if◌then◌else◌, inl, inr, length, nat_beq_iff, nat_eq,
  push_back, put, some, true, u32_max, ℕ, ◌++◌, ◌+◌, ◌==◌, ◌∷◌, ◌≡◌, ◌≤◌,
}
use stellar_did_credit.Host.{Address, Ensures, Env, Hash, ok}
use stellar_did_credit.Credential.{IdentityVcRecord}
use stellar_did_credit.IdentityOracle.State.{
  Identity, RegistryClient, anchors_of, compute_active_vc_count,
}
use stellar_did_credit.IdentityOracle.Identities.{
  deactivate_core, deactivate_identity, revoke_records,
}
use stellar_did_credit.IdentityOracle.Queries.{
  get_last_state_change_ledger, get_vc_details, is_deactivated, is_verified, verify_vc,
}

abbrev pub revoked_copy : IdentityVcRecord → IdentityVcRecord
revoked_copy r = record r { revoked = true }

abbrev pub revoked_copies : List IdentityVcRecord → List IdentityVcRecord
revoked_copies [] = []
revoked_copies (r ∷ rs) = revoked_copy r ∷ revoked_copies rs

-- The records that are not flagged yet.
abbrev pub unflagged : List IdentityVcRecord → ℕ
unflagged [] = 0
unflagged (r ∷ rs) = (if r.revoked then 0 else 1) + unflagged rs

pub revoke_records_lem :
    (rs updated : List IdentityVcRecord) (n : ℕ) (env : Env) (s : Identity)
    → n + unflagged rs ≤ u32_max
    → revoke_records rs updated n env s ≡ ok (updated ++ revoked_copies rs, n + unflagged rs) s
unfolding revoke_records
revoke_records_lem [] updated n env s room = ground (arith, append-nil updated)
revoke_records_lem (r ∷ rs) updated n env s room = elim (Bool-cases r.revoked) [
  | inl old ↦ ground (
    arith,
    revoke_records_lem rs (push_back updated (revoked_copy r)) n env s,
    append_assoc updated (revoked_copy r ∷ []) (revoked_copies rs),
  )
  | inr new ↦ ground (
    arith,
    revoke_records_lem rs (push_back updated (revoked_copy r)) (n + 1) env s,
    append_assoc updated (revoked_copy r ∷ []) (revoked_copies rs),
  )
]

-- The state after a deactivation of the subject.
pub record Deactivates (u : Address) (env : Env) (s t : Identity) : Type 0 where
  pub anchors : anchors_of t u ≡ revoked_copies (anchors_of s u)
  pub others : (v : Address) → (v == u) ≡ false → t.vc_anchors v ≡ s.vc_anchors v
  pub flagged : is_deactivated t u ≡ true
  pub counted : t.active_vc_count u ≡ some 0
  pub changed : get_last_state_change_ledger t u ≡ some env.sequence
  pub linked : t.revocation_registry_id ≡ s.revocation_registry_id

deactivate_core-Deactivates :
    (u : Address) (env : Env) (s : Identity)
    → unflagged (anchors_of s u) ≤ u32_max
    → Ensures
        (λ n t. (n ≡ unflagged (anchors_of s u)) × Deactivates u env s t)
        (deactivate_core u env s)
unfolding deactivate_core is_deactivated get_last_state_change_ledger
deactivate_core-Deactivates u env s room = ground (
  arith,
  revoke_records_lem (anchors_of s u) [] 0 env
      (record s { deactivated = put u true s.deactivated }),
  nat_beq_iff u u,
)

pub unflagged-le : (rs : List IdentityVcRecord) → unflagged rs ≤ length rs
unflagged-le [] = omega arith
unflagged-le (r ∷ rs) = ground (arith, unflagged-le rs)

-- No query finds an active credential of the subject.
abbrev pub IsCleared : RegistryClient → Address → Hash → Env → Identity → Type 0
IsCleared client u h env s =
    (get_vc_details client u env s ≡ ok [] s)
    × (compute_active_vc_count client u env s ≡ ok 0 s)
    × (verify_vc client u h env s ≡ ok false s)
    × (is_verified client u env s ≡ ok false s)

pub deactivate_identity-Deactivates :
    (u : Address) (env : Env) (s : Identity)
    → unflagged (anchors_of s u) ≤ u32_max
    → Ensures
        (λ n t. (n ≡ unflagged (anchors_of s u)) × Deactivates u env s t)
        (deactivate_identity u env s)
unfolding deactivate_identity is_deactivated get_last_state_change_ledger
deactivate_identity-Deactivates u env s room = ground (arith, deactivate_core-Deactivates u env s)
