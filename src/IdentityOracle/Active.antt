-- ===== src/IdentityOracle/Active.antt =====
-- The queries of contracts/identity-oracle/src/lib.rs agree on which credentials are active.
use mathlib.Core.List.{append-nil, append_assoc}
use stellar_did_credit.Base.{
  Bool, Bool-cases, List, Option, Option-cases, [], arith, false, if◌then◌else◌, inl, inr, is_empty,
  is_some, length, nat_eq, none, not, push_back, put, refl, some, true, u32_max, unwrap_or, ℕ, ◌&&◌,
  ◌++◌, ◌+◌, ◌==◌, ◌||◌, ◌∷◌, ◌≡◌, ◌≤◌,
}
use stellar_did_credit.Host.{Address, Env, Hash, ok}
use stellar_did_credit.Credential.{IdentityVcRecord}
use stellar_did_credit.IdentityOracle.State.{
  Identity, RegistryClient, anchors_of, compute_active_vc_count, count_active, is_record_revoked,
}
use stellar_did_credit.IdentityOracle.Queries.{
  any_active, any_active_at, get_active_vc_count, get_vc_details, is_deactivated, is_verified,
  push_active_records, verify_vc,
}

-- The linked registry, if there is one, answers for the hash.
abbrev pub is_answered : RegistryClient → Option Address → Hash → Bool
is_answered client none h = true
is_answered client (some registry) h = is_some (client.is_revoked registry h)

abbrev pub all_answered : RegistryClient → Option Address → List IdentityVcRecord → Bool
all_answered client registry [] = true
all_answered client registry (r ∷ rs) =
    (r.revoked || is_answered client registry r.vc_hash) && all_answered client registry rs

-- The record is flagged, or the linked registry says that its hash is revoked.
abbrev pub is_dead : RegistryClient → Option Address → IdentityVcRecord → Bool
is_dead client none r = r.revoked
is_dead client (some registry) r =
    r.revoked || unwrap_or (client.is_revoked registry r.vc_hash) false

-- The active credentials among the records, in their order.
abbrev pub actives : RegistryClient → Option Address → List IdentityVcRecord → List IdentityVcRecord
actives client registry [] = []
actives client registry (r ∷ rs) =
    if is_dead client registry r then actives client registry rs else r ∷ actives client registry rs

abbrev pub has_hash : Hash → List IdentityVcRecord → Bool
has_hash h [] = false
has_hash h (r ∷ rs) = r.vc_hash == h || has_hash h rs

module _ (client : RegistryClient) (env : Env) (s : Identity) where
  is_record_revoked_lem :
      (r : IdentityVcRecord)
      → (r.revoked || is_answered client s.revocation_registry_id r.vc_hash) ≡ true
      → is_record_revoked client r env s ≡ ok (is_dead client s.revocation_registry_id r) s
  unfolding is_record_revoked
  is_record_revoked_lem r h = ground arith

  count_active_lem :
      (rs : List IdentityVcRecord) (n : ℕ)
      → all_answered client s.revocation_registry_id rs ≡ true
      → n + length rs ≤ u32_max
      → count_active client rs n env s
        ≡ ok (n + length (actives client s.revocation_registry_id rs)) s
  unfolding count_active
  count_active_lem [] n h room = ground arith
  count_active_lem (r ∷ rs) n h room =
      ground (arith, is_record_revoked_lem r, count_active_lem rs n, count_active_lem rs (n + 1))

  any_active_lem :
      (rs : List IdentityVcRecord)
      → all_answered client s.revocation_registry_id rs ≡ true
      → any_active client rs env s
        ≡ ok (not (is_empty (actives client s.revocation_registry_id rs))) s
  unfolding any_active
  any_active_lem [] h = refl
  any_active_lem (r ∷ rs) h = ground (arith, is_record_revoked_lem r, any_active_lem rs)

  any_active_at_lem :
      (h : Hash) (rs : List IdentityVcRecord)
      → all_answered client s.revocation_registry_id rs ≡ true
      → any_active_at client h rs env s
        ≡ ok (has_hash h (actives client s.revocation_registry_id rs)) s
  unfolding any_active_at
  any_active_at_lem h [] a = refl
  any_active_at_lem h (r ∷ rs) a = ground (arith, any_active_at_lem h rs, is_record_revoked_lem r)

  push_active_records_lem :
      (rs acc : List IdentityVcRecord)
      → all_answered client s.revocation_registry_id rs ≡ true
      → push_active_records client rs acc env s
        ≡ ok (acc ++ actives client s.revocation_registry_id rs) s
  unfolding push_active_records
  push_active_records_lem [] acc h = rw append-nil
  push_active_records_lem (r ∷ rs) acc h =
      elim (Bool-cases (is_dead client s.revocation_registry_id r)) [
        | inl dead ↦ ground (arith, is_record_revoked_lem r, push_active_records_lem rs acc)
        | inr live ↦ ground (
          arith,
          is_record_revoked_lem r,
          push_active_records_lem rs (push_back acc r),
          append_assoc acc (r ∷ []) (actives client s.revocation_registry_id rs),
        )
      ]

-- If the linked registry answers for every credential of the subject and their number fits a
-- `u32`, `get_vc_details`, `verify_vc`, `is_verified` and the helper `compute_active_vc_count`
-- agree on one list of active credentials, in the order of anchoring: they return the list,
-- whether a hash is on it, whether it has an entry and the subject is not deactivated, and its
-- length. `get_active_vc_count` returns and caches that length if nothing is cached; otherwise it
-- returns the cached number, whatever the list is.
pub active_agree :
    (client : RegistryClient) (u : Address) (h : Hash) (env : Env) (s : Identity)
    → all_answered client s.revocation_registry_id (anchors_of s u) ≡ true
    → length (anchors_of s u) ≤ u32_max
    → let list = actives client s.revocation_registry_id (anchors_of s u) in
      (get_vc_details client u env s ≡ ok list s)
      × (compute_active_vc_count client u env s ≡ ok (length list) s)
      × (verify_vc client u h env s ≡ ok (has_hash h list) s)
      × (is_verified client u env s ≡ ok (not (is_deactivated s u) && not (is_empty list)) s)
      × (get_active_vc_count client u env s ≡ elim (s.active_vc_count u) [
        | none ↦
            ok (length list) (record s { active_vc_count = put u (length list) s.active_vc_count })
        | some cached ↦ ok cached s
      ])
unfolding get_vc_details compute_active_vc_count verify_vc is_verified get_active_vc_count
active_agree client u h env s answered small =
    let counted = count_active_lem client env s (anchors_of s u) 0 answered (omega arith) in
    (
      push_active_records_lem client env s (anchors_of s u) [] answered,
      ground (arith, counted),
      any_active_at_lem client env s h (anchors_of s u) answered,
      ground (arith, any_active_lem client env s (anchors_of s u) answered),
      elim (Option-cases (s.active_vc_count u)) [
        | inl e ↦ ground (arith, counted)
        | inr (cached, e) ↦ ground arith
      ],
    )
