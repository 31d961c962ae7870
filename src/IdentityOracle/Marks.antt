-- ===== src/IdentityOracle/Marks.antt =====
-- How `mark_vc_revoked` of contracts/identity-oracle/src/lib.rs ends.
use mathlib.Core.List.{append-nil, append_assoc}
use stellar_did_credit.Base.{
  Bool, Bool-cases, List, [], arith, false, if◌then◌else◌, inl, inr, nat_beq_iff, nat_eq, not, refl,
  some, suc, true, u64_max, unwrap_or, zero, ℕ, ◌&&◌, ◌++◌, ◌+◌, ◌-◌, ◌<◌, ◌==◌, ◌||◌, ◌∷◌, ◌≡◌,
  ◌≤◌,
}
use stellar_did_credit.Host.{Address, Env, Hash, IsOk-Ensures, Outcome, err, ok, trap}
use stellar_did_credit.Credential.{IdentityVcRecord}
use stellar_did_credit.IdentityOracle.State.{
  Identity, IdentityOracleError, RegistryClient, anchors_of, load_protocol_stats, vc_not_found,
}
use stellar_did_credit.IdentityOracle.Credentials.{
  Marking, has_anchor, is_match, mark_each, mark_one, mark_vc_revoked,
}
use stellar_did_credit.IdentityOracle.Deactivation.{revoked_copy}

-- The records once those of the issuer with the hash are flagged.
abbrev pub marked_copies : Address → Hash → List IdentityVcRecord → List IdentityVcRecord
marked_copies issuer h [] = []
marked_copies issuer h (r ∷ rs) =
    (if is_match issuer h r then revoked_copy r else r) ∷ marked_copies issuer h rs

-- Such a record that is not flagged yet.
abbrev pub has_fresh : Address → Hash → List IdentityVcRecord → Bool
has_fresh issuer h [] = false
has_fresh issuer h (r ∷ rs) = (is_match issuer h r && not r.revoked) || has_fresh issuer h rs

pub mark_each_lem :
    (issuer : Address) (h : Hash) (rs : List IdentityVcRecord) (m : Marking)
    → ((mark_each issuer h rs m).updated ≡ m.updated ++ marked_copies issuer h rs)
      × ((mark_each issuer h rs m).found ≡ (m.found || has_anchor issuer h rs))
      × ((mark_each issuer h rs m).transitioned_to_revoked
          ≡ (m.transitioned_to_revoked || has_fresh issuer h rs))
unfolding mark_each has_anchor
mark_each_lem issuer h [] m = ground (arith, append-nil m.updated)
mark_each_lem issuer h (r ∷ rs) m = elim (Bool-cases (is_match issuer h r)) [
  | inl hit ↦ ground (
    arith,
    mark_each_lem issuer h rs (mark_one issuer h r m),
    append_assoc m.updated (revoked_copy r ∷ []) (marked_copies issuer h rs),
  )
  | inr miss ↦ ground (
    arith,
    mark_each_lem issuer h rs (mark_one issuer h r m),
    append_assoc m.updated (r ∷ []) (marked_copies issuer h rs),
  )
]

-- The state after marking, with the cached active count that it must leave.
pub record Marks (issuer u : Address) (h : Hash) (n : ℕ) (s t : Identity) : Type 0 where
  pub anchors : anchors_of t u ≡ marked_copies issuer h (anchors_of s u)
  pub others : (v : Address) → (v == u) ≡ false → t.vc_anchors v ≡ s.vc_anchors v
  pub counted : t.active_vc_count u ≡ some n
  pub total :
      (load_protocol_stats t).total_vcs_revoked
      ≡ (load_protocol_stats s).total_vcs_revoked
        + (if has_fresh issuer h (anchors_of s u) then 1 else 0)

abbrev pub Marked :
    Address
    → Address
    → Hash
    → ℕ
    → Identity
    → Outcome IdentityOracleError Identity (Unit {0})
    → Type 0
Marked issuer u h n s o = (t : Identity) × (o ≡ ok tt t) × Marks issuer u h n s t

-- How marking must end, by whether the credential is there, whether one is not flagged yet, and
-- the cached active count.
abbrev pub MarkEnds :
    Address
    → Address
    → Hash
    → Identity
    → Bool
    → Bool
    → ℕ
    → Outcome IdentityOracleError Identity (Unit {0})
    → Type 0
MarkEnds issuer u h s false fresh n o = o ≡ err vc_not_found
MarkEnds issuer u h s true false n o = Marked issuer u h n s o
MarkEnds issuer u h s true true zero o = o ≡ trap
MarkEnds issuer u h s true true (suc n) o = Marked issuer u h n s o

-- The local variables before the loop.
abbrev unmarked : Marking
unmarked = record { updated = []; found = false; transitioned_to_revoked = false }

module _ (client : RegistryClient) (issuer u : Address) (h : Hash) (env : Env) (s : Identity)
    {n : ℕ} (unpaused : unwrap_or s.paused false ≡ false) (auth : env.authorized issuer ≡ true)
    (cached : s.active_vc_count u ≡ some n)
    (room : (load_protocol_stats s).total_vcs_revoked < u64_max) where
  mark_stale :
      has_anchor issuer h (anchors_of s u) ≡ true
      → has_fresh issuer h (anchors_of s u) ≡ false
      → Marked issuer u h n s (mark_vc_revoked client issuer u h env s)
  unfolding mark_vc_revoked load_protocol_stats
  mark_stale found stale =
      IsOk-Ensures (mark_vc_revoked client issuer u h env s)
        (ground (arith, mark_each_lem issuer h (anchors_of s u) unmarked))
        (ground (arith, mark_each_lem issuer h (anchors_of s u) unmarked, nat_beq_iff u u))

  mark_fresh :
      has_anchor issuer h (anchors_of s u) ≡ true
      → has_fresh issuer h (anchors_of s u) ≡ true
      → 1 ≤ n
      → Marked issuer u h (n - 1) s (mark_vc_revoked client issuer u h env s)
  unfolding mark_vc_revoked load_protocol_stats
  mark_fresh found fresh some_left =
      IsOk-Ensures (mark_vc_revoked client issuer u h env s)
        (ground (arith, mark_each_lem issuer h (anchors_of s u) unmarked))
        (ground (arith, mark_each_lem issuer h (anchors_of s u) unmarked, nat_beq_iff u u))

  mark_underflow :
      has_anchor issuer h (anchors_of s u) ≡ true
      → has_fresh issuer h (anchors_of s u) ≡ true
      → n ≡ 0
      → mark_vc_revoked client issuer u h env s ≡ trap
  unfolding mark_vc_revoked
  mark_underflow found fresh none_left =
      (ground (arith, mark_each_lem issuer h (anchors_of s u) unmarked))

  mark_missing :
      has_anchor issuer h (anchors_of s u) ≡ false
      → mark_vc_revoked client issuer u h env s ≡ err vc_not_found
  unfolding mark_vc_revoked
  mark_missing missing = (ground (arith, mark_each_lem issuer h (anchors_of s u) unmarked))

  fresh_ends :
      (m : ℕ)
      → n ≡ m
      → has_anchor issuer h (anchors_of s u) ≡ true
      → has_fresh issuer h (anchors_of s u) ≡ true
      → MarkEnds issuer u h s true true m (mark_vc_revoked client issuer u h env s)
  fresh_ends zero e found fresh = mark_underflow found fresh e
  fresh_ends (suc m) e found fresh =
      let left : n - 1 ≡ m = omega arith in rw left at mark_fresh found fresh (omega arith)

-- On an identity oracle that is not paused, with a cached active count and room in the `u64`
-- counter, a mark that the issuer authorized fails with `VCNotFound` exactly if the subject has no
-- such credential of the issuer. Otherwise, if none of them is unflagged, it succeeds and the
-- cached count stays; else it traps exactly if the cached count is 0, and succeeds with the count
-- one lower. A success flags these credentials and no others.
pub mark_vc_revoked_ends :
    (client : RegistryClient) (issuer u : Address) (h : Hash) (env : Env) (s : Identity) {n : ℕ}
    → unwrap_or s.paused false ≡ false
    → env.authorized issuer ≡ true
    → s.active_vc_count u ≡ some n
    → (load_protocol_stats s).total_vcs_revoked < u64_max
    → MarkEnds issuer u h s
        (has_anchor issuer h (anchors_of s u))
        (has_fresh issuer h (anchors_of s u))
        n
        (mark_vc_revoked client issuer u h env s)
mark_vc_revoked_ends client issuer u h env s {n} unpaused auth cached room =
    elim (Bool-cases (has_anchor issuer h (anchors_of s u))) [
      | inr missing ↦
          rw missing (mark_missing client issuer u h env s unpaused auth cached room missing)
      | inl found ↦ elim (Bool-cases (has_fresh issuer h (anchors_of s u))) [
        | inr stale ↦
            rw (found, stale)
              (mark_stale client issuer u h env s unpaused auth cached room found stale)
        | inl fresh ↦
            rw (found, fresh)
              (fresh_ends client issuer u h env s unpaused auth cached room n refl found fresh)
      ]
    ]
