-- ===== src/IdentityOracle/Exact.antt =====
-- While no registry is linked, the cached number of active credentials is exact.
use stellar_did_credit.Base.{
  Bool, List, Option, [], arith, false, if◌then◌else◌, nat_beq_iff, not, push_back, refl, some,
  true, unwrap_or, ℕ, ◌&&◌, ◌+◌, ◌||◌, ◌∷◌, ◌≡◌,
}
use stellar_did_credit.Host.{Address, Hash}
use stellar_did_credit.Credential.{IdentityVcRecord}
use stellar_did_credit.IdentityOracle.Credentials.{has_anchor, is_match}
use stellar_did_credit.IdentityOracle.Deactivation.{revoked_copies, unflagged}
use stellar_did_credit.IdentityOracle.Marks.{has_fresh, marked_copies}

-- No issuer has two records with one hash.
abbrev pub are_distinct : List IdentityVcRecord → Bool
are_distinct [] = true
are_distinct (r ∷ rs) = not (has_anchor r.issuer r.vc_hash rs) && are_distinct rs

-- The records repeat nothing, and a cached count is the number of those not flagged.
abbrev pub IsExactFor : List IdentityVcRecord → Option ℕ → Type 0
IsExactFor rs cached = (are_distinct rs ≡ true) × (unwrap_or cached (unflagged rs) ≡ unflagged rs)

has_anchor-push_back :
    (a : Address) (h : Hash) (r : IdentityVcRecord) (rs : List IdentityVcRecord)
    → has_anchor a h (push_back rs r) ≡ (has_anchor a h rs || is_match a h r)
unfolding has_anchor
has_anchor-push_back a h r [] = ground arith
has_anchor-push_back a h r (x ∷ xs) = ground (arith, has_anchor-push_back a h r xs)

pub are_distinct-push_back :
    (r : IdentityVcRecord) (rs : List IdentityVcRecord)
    → are_distinct rs ≡ true
    → has_anchor r.issuer r.vc_hash rs ≡ false
    → are_distinct (push_back rs r) ≡ true
unfolding has_anchor
are_distinct-push_back r [] d n = ground arith
are_distinct-push_back r (x ∷ xs) d n = ground (
  arith,
  are_distinct-push_back r xs,
  has_anchor-push_back x.issuer x.vc_hash r xs,
  nat_beq_iff x.issuer r.issuer,
  nat_beq_iff r.issuer x.issuer,
  nat_beq_iff x.vc_hash r.vc_hash,
  nat_beq_iff r.vc_hash x.vc_hash,
)

pub unflagged-push_back :
    (r : IdentityVcRecord) (rs : List IdentityVcRecord)
    → unflagged (push_back rs r) ≡ unflagged rs + (if r.revoked then 0 else 1)
unflagged-push_back r [] = ground arith
unflagged-push_back r (x ∷ xs) = ground (arith, unflagged-push_back r xs)

has_anchor-revoked_copies :
    (a : Address) (h : Hash) (rs : List IdentityVcRecord)
    → has_anchor a h (revoked_copies rs) ≡ has_anchor a h rs
unfolding has_anchor
has_anchor-revoked_copies a h [] = refl
has_anchor-revoked_copies a h (r ∷ rs) = ground (arith, has_anchor-revoked_copies a h rs)

pub revoked_copies-IsExactFor :
    (rs : List IdentityVcRecord) → are_distinct rs ≡ true → IsExactFor (revoked_copies rs) (some 0)
unfolding has_anchor
revoked_copies-IsExactFor [] d = ground arith
revoked_copies-IsExactFor (r ∷ rs) d =
    ground (arith, revoked_copies-IsExactFor rs, has_anchor-revoked_copies r.issuer r.vc_hash rs)

has_anchor-marked_copies :
    (issuer : Address) (h : Hash) (a : Address) (k : Hash) (rs : List IdentityVcRecord)
    → has_anchor a k (marked_copies issuer h rs) ≡ has_anchor a k rs
unfolding has_anchor
has_anchor-marked_copies issuer h a k [] = refl
has_anchor-marked_copies issuer h a k (r ∷ rs) =
    ground (arith, has_anchor-marked_copies issuer h a k rs)

-- A record without a match is not fresh, and marking leaves it.
unmatched_lem :
    (issuer : Address) (h : Hash) (rs : List IdentityVcRecord)
    → has_anchor issuer h rs ≡ false
    → (unflagged (marked_copies issuer h rs) ≡ unflagged rs) × (has_fresh issuer h rs ≡ false)
unfolding has_anchor
unmatched_lem issuer h [] n = ground arith
unmatched_lem issuer h (r ∷ rs) n = ground (arith, unmatched_lem issuer h rs)

pub marked_copies_lem :
    (issuer : Address) (h : Hash) (rs : List IdentityVcRecord)
    → are_distinct rs ≡ true
    → (are_distinct (marked_copies issuer h rs) ≡ true)
      × (unflagged (marked_copies issuer h rs) + (if has_fresh issuer h rs then 1 else 0)
          ≡ unflagged rs)
unfolding has_anchor
marked_copies_lem issuer h [] d = ground arith
marked_copies_lem issuer h (r ∷ rs) d = ground (
  arith,
  marked_copies_lem issuer h rs,
  unmatched_lem issuer h rs,
  has_anchor-marked_copies issuer h r.issuer r.vc_hash rs,
  nat_beq_iff r.issuer issuer,
  nat_beq_iff r.vc_hash h,
)
