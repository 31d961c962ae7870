-- ===== src/IdentityOracle/ExactSteps.antt =====
-- The entry points of contracts/identity-oracle/src/lib.rs keep the cached counts exact while no
-- registry is linked.
use stellar_did_credit.IdentityOracle.Marks.{has_fresh, mark_each_lem, marked_copies}
use mathlib.Core.List.{append-nil, append_assoc}
use stellar_did_credit.Base.{
  Bool-cases, List, Option, [], arith, false, if◌then◌else◌, inl, inr, nat_beq_iff, nat_eq, none,
  pair_eq, push_back, put, some, string_eq, true, ℕ, ◌++◌, ◌+◌, ◌-◌, ◌==◌, ◌∷◌, ◌≡◌,
}
use stellar_did_credit.Host.{Address, Ensures, Env, Hash, Symbol, ok}
use stellar_did_credit.Credential.{IdentityVcRecord}
use stellar_did_credit.IdentityOracle.State.{
  Identity, RegistryClient, anchors_of, count_active, is_record_revoked, load_protocol_stats,
  seed_active_vc_count,
}
use stellar_did_credit.IdentityOracle.Credentials.{
  Marking, add_active, drop_active, filter_count, has_anchor, mark_each, mark_vc_revoked,
  push_anchor,
}
use stellar_did_credit.IdentityOracle.Identities.{deactivate_core, revoke_records}
use stellar_did_credit.IdentityOracle.Deactivation.{revoked_copies, revoked_copy, unflagged}
use stellar_did_credit.IdentityOracle.Exact.{
  IsExactFor, are_distinct-push_back, marked_copies_lem, revoked_copies-IsExactFor,
  unflagged-push_back,
}

is_record_revoked-none :
    (client : RegistryClient) (r : IdentityVcRecord) (env : Env) (s : Identity)
    → s.revocation_registry_id ≡ none
    → is_record_revoked client r env s ≡ ok r.revoked s
unfolding is_record_revoked
is_record_revoked-none client r env s e = ground arith

filter_count-none :
    (client : RegistryClient) (rs : List IdentityVcRecord) (n : ℕ) (env : Env) (s : Identity)
    → s.revocation_registry_id ≡ none
    → filter_count client rs n env s ≡ ok (n + unflagged rs) s
unfolding filter_count
filter_count-none client [] n env s e = ground arith
filter_count-none client (r ∷ rs) n env s e = ground (
  arith,
  is_record_revoked-none client r env s,
  filter_count-none client rs n env s,
  filter_count-none client rs (n + 1) env s,
)

pub count_active-none :
    (client : RegistryClient) (rs : List IdentityVcRecord) (n : ℕ) (env : Env) (s : Identity)
    → s.revocation_registry_id ≡ none
    → Ensures (λ m t. (t ≡ s) × (m ≡ n + unflagged rs)) (count_active client rs n env s)
unfolding count_active
count_active-none client [] n env s e = ground arith
count_active-none client (r ∷ rs) n env s e = ground (
  arith,
  is_record_revoked-none client r env s,
  count_active-none client rs n env s,
  count_active-none client rs (n + 1) env s,
)

-- Only the credentials of the subject change, and its cached count is exact.
pub record Keeps (u : Address) (s t : Identity) : Type 0 where
  pub unlinked : t.revocation_registry_id ≡ none
  pub exact : IsExactFor (anchors_of t u) (t.active_vc_count u)
  pub others :
      (v : Address)
      → (v == u) ≡ false
      → (t.vc_anchors v ≡ s.vc_anchors v) × (t.active_vc_count v ≡ s.active_vc_count v)

-- What `add_active` and `drop_active` leave when they succeed.
abbrev Counts : Address → ℕ → Identity → Identity → Type 0
Counts u n w t =
    (t.revocation_registry_id ≡ none)
    × (t.vc_anchors ≡ w.vc_anchors)
    × (t.active_vc_count ≡ put u n w.active_vc_count)

seed_active_vc_count-Counts :
    (client : RegistryClient) (u : Address) (env : Env) (w : Identity)
    → w.revocation_registry_id ≡ none
    → Ensures (λ _. Counts u (unflagged (anchors_of w u)) w) (seed_active_vc_count client u env w)
unfolding seed_active_vc_count
seed_active_vc_count-Counts client u env w e =
    ground (arith, count_active-none client (anchors_of w u) 0 env w)

add_active-Counts :
    (client : RegistryClient) (u : Address) (cached : Option ℕ) (env : Env) (w : Identity)
    → w.revocation_registry_id ≡ none
    → Ensures
        (λ _ t. Counts u (elim cached [ none ↦ unflagged (anchors_of w u) | some c ↦ c + 1 ]) w t)
        (add_active client u true cached env w)
unfolding add_active
add_active-Counts client u none env w e = ground (arith, seed_active_vc_count-Counts client u env w)
add_active-Counts client u (some c) env w e = ground arith

drop_active-Counts :
    (client : RegistryClient) (u : Address) (cached : Option ℕ) (env : Env) (w : Identity)
    → w.revocation_registry_id ≡ none
    → Ensures
        (λ _ t. Counts u (elim cached [ none ↦ unflagged (anchors_of w u) | some c ↦ c - 1 ]) w t)
        (drop_active client u cached env w)
unfolding drop_active
drop_active-Counts client u none env w e =
    ground (arith, seed_active_vc_count-Counts client u env w)
drop_active-Counts client u (some c) env w e = ground arith

pub push_anchor-Keeps :
    (client : RegistryClient) (issuer u : Address) (h : Hash) (type : Symbol) (env : Env)
    (s : Identity)
    → s.revocation_registry_id ≡ none
    → IsExactFor (anchors_of s u) (s.active_vc_count u)
    → has_anchor issuer h (anchors_of s u) ≡ false
    → Ensures (λ _. Keeps u s) (push_anchor client issuer u h type (anchors_of s u) env s)
unfolding push_anchor
push_anchor-Keeps client issuer u h type env s e exact absent =
    let added : IdentityVcRecord = record {
      vc_hash = h;
      issuer = issuer;
      anchored_at = env.timestamp;
      revoked = false;
    } in
    let w : Identity = record s {
      vc_credential_type = put (u, h) type s.vc_credential_type;
      vc_anchors = put u (push_back (anchors_of s u) added) s.vc_anchors;
      last_state_change = put u env.sequence s.last_state_change;
    } in
    ground (
      arith,
      filter_count-none client (anchors_of s u) 0 env s,
      is_record_revoked-none client added env s,
      add_active-Counts client u (s.active_vc_count u) env w e,
      are_distinct-push_back added (anchors_of s u),
      unflagged-push_back added (anchors_of s u),
      nat_beq_iff u u,
    )

-- The record of the subject after marking is exact for the count that is left.
marked_copies-IsExactFor :
    (issuer : Address) (h : Hash) (rs : List IdentityVcRecord) (cached : Option ℕ)
    → IsExactFor rs cached
    → IsExactFor (marked_copies issuer h rs) (
        if has_fresh issuer h rs
        then some (elim cached [ none ↦ unflagged (marked_copies issuer h rs) | some c ↦ c - 1 ])
        else cached)
marked_copies-IsExactFor issuer h rs cached exact = ground (arith, marked_copies_lem issuer h rs)

abbrev pub unmarked : Marking
unmarked = record { updated = []; found = false; transitioned_to_revoked = false }

module _ (client : RegistryClient) (issuer u : Address) (h : Hash) (env : Env) (s : Identity)
    (e : s.revocation_registry_id ≡ none)
    (exact : IsExactFor (anchors_of s u) (s.active_vc_count u)) where
  mark_stale-Keeps :
      has_fresh issuer h (anchors_of s u) ≡ false
      → Ensures (λ _. Keeps u s) (mark_vc_revoked client issuer u h env s)
  unfolding mark_vc_revoked
  mark_stale-Keeps stale =
      let w : Identity = record s {
        vc_anchors = put u (mark_each issuer h (anchors_of s u) unmarked).updated s.vc_anchors;
      } in
      ground (
        arith,
        mark_each_lem issuer h (anchors_of s u) unmarked,
        seed_active_vc_count-Counts client u env w e,
        marked_copies-IsExactFor issuer h (anchors_of s u) (s.active_vc_count u) exact,
        nat_beq_iff u u,
      )

  mark_fresh-Keeps :
      has_fresh issuer h (anchors_of s u) ≡ true
      → Ensures (λ _. Keeps u s) (mark_vc_revoked client issuer u h env s)
  unfolding mark_vc_revoked load_protocol_stats
  mark_fresh-Keeps fresh =
      let stats = load_protocol_stats s in
      let x : Identity = record s {
        vc_anchors = put u (mark_each issuer h (anchors_of s u) unmarked).updated s.vc_anchors;
        last_state_change = put u env.sequence s.last_state_change;
        protocol_stats = some (record stats { total_vcs_revoked = stats.total_vcs_revoked + 1 });
      } in
      ground (
        arith,
        mark_each_lem issuer h (anchors_of s u) unmarked,
        drop_active-Counts client u (s.active_vc_count u) env x e,
        marked_copies-IsExactFor issuer h (anchors_of s u) (s.active_vc_count u) exact,
        nat_beq_iff u u,
      )

pub mark_vc_revoked-Keeps :
    (client : RegistryClient) (issuer u : Address) (h : Hash) (env : Env) (s : Identity)
    → s.revocation_registry_id ≡ none
    → IsExactFor (anchors_of s u) (s.active_vc_count u)
    → Ensures (λ _. Keeps u s) (mark_vc_revoked client issuer u h env s)
mark_vc_revoked-Keeps client issuer u h env s e exact =
    elim (Bool-cases (has_fresh issuer h (anchors_of s u))) [
      | inl fresh ↦ mark_fresh-Keeps client issuer u h env s e exact fresh
      | inr stale ↦ mark_stale-Keeps client issuer u h env s e exact stale
    ]

pub revoke_records_copies :
    (rs updated : List IdentityVcRecord) (n : ℕ) (env : Env) (s : Identity)
    → Ensures
        (λ p t. (t ≡ s) × (p.0 ≡ updated ++ revoked_copies rs))
        (revoke_records rs updated n env s)
unfolding revoke_records
revoke_records_copies [] updated n env s = ground (arith, append-nil updated)
revoke_records_copies (r ∷ rs) updated n env s =
    let more = push_back updated (revoked_copy r) in
    ground (
      arith,
      revoke_records_copies rs more n env s,
      revoke_records_copies rs more (n + 1) env s,
      append_assoc updated (revoked_copy r ∷ []) (revoked_copies rs),
    )

pub deactivate_core-Keeps :
    (u : Address) (env : Env) (s : Identity)
    → s.revocation_registry_id ≡ none
    → IsExactFor (anchors_of s u) (s.active_vc_count u)
    → Ensures (λ _. Keeps u s) (deactivate_core u env s)
unfolding deactivate_core
deactivate_core-Keeps u env s e exact = ground (
  arith,
  revoke_records_copies (anchors_of s u) [] 0 env
      (record s { deactivated = put u true s.deactivated }),
  revoked_copies-IsExactFor (anchors_of s u),
  nat_beq_iff u u,
)
