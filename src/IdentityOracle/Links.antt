-- ===== src/IdentityOracle/Links.antt =====
-- No entry point of contracts/identity-oracle/src/lib.rs unlinks the registry.
use stellar_did_credit.IdentityOracle.Exact.{IsExactFor}
use mathlib.Core.Path.{subst}
use stellar_did_credit.Base.{
  Bool, Bool-cases, List, Option, Option-cases, [], ap, arith, inl, inr, is_some, nat_beq_iff,
  nat_eq, none, pair_eq, put, refl, some, string_eq, sym, true, ℕ, ◌+◌, ◌==◌, ◌∙◌, ◌∷◌, ◌≡◌, ◌⊎◌,
}
use stellar_did_credit.Host.{Address, Ensures, Env, Hash, Symbol}
use stellar_did_credit.Credential.{IdentityVcRecord}
use stellar_did_credit.IdentityOracle.State.{
  Identity, RegistryClient, anchors_of, count_active, is_record_revoked, load_protocol_stats,
  seed_active_vc_count,
}
use stellar_did_credit.IdentityOracle.Credentials.{
  add_active, anchor_vc_typed, drop_active, filter_count, mark_each, mark_vc_revoked, push_anchor,
}
use stellar_did_credit.IdentityOracle.Identities.{deactivate_core}
use stellar_did_credit.IdentityOracle.ExactSteps.{Keeps, revoke_records_copies, unmarked}

-- Counting leaves the state as it is.
is_record_revoked_frame :
    (client : RegistryClient) (r : IdentityVcRecord) (env : Env) (s : Identity)
    → Ensures (λ _ t. t ≡ s) (is_record_revoked client r env s)
unfolding is_record_revoked
is_record_revoked_frame client r env s = ground arith

filter_count_frame :
    (client : RegistryClient) (rs : List IdentityVcRecord) (n : ℕ) (env : Env) (s : Identity)
    → Ensures (λ _ t. t ≡ s) (filter_count client rs n env s)
unfolding filter_count
filter_count_frame client [] n env s = refl
filter_count_frame client (r ∷ rs) n env s = ground (
  arith,
  is_record_revoked_frame client r env s,
  filter_count_frame client rs n env s,
  filter_count_frame client rs (n + 1) env s,
)

count_active_frame :
    (client : RegistryClient) (rs : List IdentityVcRecord) (n : ℕ) (env : Env) (s : Identity)
    → Ensures (λ _ t. t ≡ s) (count_active client rs n env s)
unfolding count_active
count_active_frame client [] n env s = refl
count_active_frame client (r ∷ rs) n env s = ground (
  arith,
  is_record_revoked_frame client r env s,
  count_active_frame client rs n env s,
  count_active_frame client rs (n + 1) env s,
)

-- No entry point unlinks the registry.
abbrev pub SameLink : Identity → Identity → Type 0
SameLink s t = t.revocation_registry_id ≡ s.revocation_registry_id

pub seed_active_vc_count-SameLink :
    (client : RegistryClient) (u : Address) (env : Env) (s : Identity)
    → Ensures (λ _. SameLink s) (seed_active_vc_count client u env s)
unfolding seed_active_vc_count
seed_active_vc_count-SameLink client u env s =
    ground (arith, count_active_frame client (anchors_of s u) 0 env s)

add_active-SameLink :
    (client : RegistryClient) (u : Address) (on : Bool) (cached : Option ℕ) (env : Env)
    (s : Identity)
    → Ensures (λ _. SameLink s) (add_active client u on cached env s)
unfolding add_active
add_active-SameLink client u on none env s =
    ground (arith, seed_active_vc_count-SameLink client u env s)
add_active-SameLink client u on (some c) env s = ground arith

drop_active-SameLink :
    (client : RegistryClient) (u : Address) (cached : Option ℕ) (env : Env) (s : Identity)
    → Ensures (λ _. SameLink s) (drop_active client u cached env s)
unfolding drop_active
drop_active-SameLink client u none env s =
    ground (arith, seed_active_vc_count-SameLink client u env s)
drop_active-SameLink client u (some c) env s = ground arith

pub anchor_vc_typed-SameLink :
    (client : RegistryClient) (issuer u : Address) (h : Hash) (type : Symbol) (env : Env)
    (s : Identity)
    → Ensures (λ _. SameLink s) (anchor_vc_typed client issuer u h type env s)
unfolding anchor_vc_typed push_anchor
anchor_vc_typed-SameLink client issuer u h type env s =
    grind (arith, filter_count_frame, is_record_revoked_frame, add_active-SameLink)

pub mark_vc_revoked-SameLink :
    (client : RegistryClient) (issuer u : Address) (h : Hash) (env : Env) (s : Identity)
    → Ensures (λ _. SameLink s) (mark_vc_revoked client issuer u h env s)
unfolding mark_vc_revoked load_protocol_stats
mark_vc_revoked-SameLink client issuer u h env s =
    let m = mark_each issuer h (anchors_of s u) unmarked in
    let w : Identity = record s { vc_anchors = put u m.updated s.vc_anchors } in
    let stats = load_protocol_stats s in
    let x : Identity = record w {
      last_state_change = put u env.sequence s.last_state_change;
      protocol_stats = some (record stats { total_vcs_revoked = stats.total_vcs_revoked + 1 });
    } in
    ground (
      arith,
      seed_active_vc_count-SameLink client u env w,
      drop_active-SameLink client u (s.active_vc_count u) env x,
    )

pub deactivate_core-SameLink :
    (u : Address) (env : Env) (s : Identity) → Ensures (λ _. SameLink s) (deactivate_core u env s)
unfolding deactivate_core
deactivate_core-SameLink u env s = ground (
  arith,
  revoke_records_copies (anchors_of s u) [] 0 env
      (record s { deactivated = put u true s.deactivated }),
)

-- The cached counts of a state with no linked registry are exact.
abbrev pub ExactUnder : Option Address → Identity → Type 0
ExactUnder none s = (u : Address) → IsExactFor (anchors_of s u) (s.active_vc_count u)
ExactUnder (some registry) s = Unit

abbrev pub IsExact : Identity → Type 0
IsExact s = ExactUnder s.revocation_registry_id s

-- The credentials and their counts are as before, or a registry is linked now.
abbrev pub Idle : Identity → Identity → Type 0
Idle s t =
    (is_some t.revocation_registry_id ≡ true)
    ⊎ ((t.revocation_registry_id ≡ s.revocation_registry_id)
        × (t.vc_anchors ≡ s.vc_anchors)
        × (t.active_vc_count ≡ s.active_vc_count))

pub linked-IsExact : (t : Identity) → is_some t.revocation_registry_id ≡ true → IsExact t
linked-IsExact t e = elim (Option-cases t.revocation_registry_id) [
  | inl n ↦ ground arith
  | inr (r, n) ↦ rw n tt
]

pub Idle-IsExact : (s t : Identity) → IsExact s → Idle s t → IsExact t
Idle-IsExact s t h (inl e) = linked-IsExact t e
Idle-IsExact s t h (inr (e, a, c)) = elim (Option-cases s.revocation_registry_id) [
  | inl n ↦
      let exact : ExactUnder none s = subst (λ r. ExactUnder r s) n h in
      subst (λ r. ExactUnder r t) (sym (e ∙ n))
        (λ u. rw (ap (λ m. m u) a, ap (λ m. m u) c) (exact u))
  | inr (r, n) ↦ subst (λ r. ExactUnder r t) (sym (e ∙ n)) tt
]

pub Keeps-IsExact : (u : Address) (s t : Identity) → ExactUnder none s → Keeps u s t → IsExact t
Keeps-IsExact u s t exact k =
    subst (λ r. ExactUnder r t) (sym k.unlinked)
      (λ v. elim (Bool-cases (v == u)) [
        | inl same ↦ rw ((nat_beq_iff v u).0 same) k.exact
        | inr other ↦ let o = k.others v other in rw (o.0, o.1) (exact v)
      ])
