-- ===== src/RevocationRegistry/Queries.antt =====
-- The read-only entry points of contracts/revocation-registry/src/lib.rs.
use stellar_did_credit.Base.{
  Bool, List, Option, [], checked_add, false, get_elem?, if◌then◌else◌, leb, length, min, nat_eq,
  push_back, suc, u32_max, unwrap_or, zero, ℕ, ◌+◌, ◌-◌, ◌==◌, ◌||◌,
}
use stellar_did_credit.Host.{Address, Hash, expect, gets, pure, ◌>>=◌}
use stellar_did_credit.RevocationRegistry.State.{Method, Registry, max_batch_size}

unfoldable pub is_paused : Registry → Bool
is_paused s = unwrap_or s.paused false

unfoldable pub get_batch_limit : Registry → ℕ
get_batch_limit s = unwrap_or s.batch_limit max_batch_size

unfoldable pub is_revoked : Registry → Hash → Bool
is_revoked s vc_hash = unwrap_or (s.status vc_hash) false

unfoldable pub get_revocation_record : Registry → Hash → Option Address
get_revocation_record s vc_hash = s.issuer_of_vc vc_hash

unfoldable pub list_revoked_for_issuer : Registry → Address → List Hash
list_revoked_for_issuer s issuer = unwrap_or (s.issuer_revoked_list issuer) []

unfoldable pub get_revocation_count : Registry → Address → ℕ
get_revocation_count s issuer = length (unwrap_or (s.issuer_revoked_list issuer) [])

-- The `for i in cursor..end` of `list_revoked`, with the rounds that are left.
unfoldable pub copy_range : List Hash → ℕ → ℕ → List Hash → Method (List Hash)
copy_range list zero i result = pure result
copy_range list (suc rounds) i result = do
  vc_hash ← expect (get_elem? list i)
  copy_range list rounds (i + 1) (push_back result vc_hash)

-- `cursor + limit` is a checked `u32` sum: the release profile keeps overflow checks on.
unfoldable pub list_revoked : Address → ℕ → ℕ → Method (List Hash)
unfolding copy_range
list_revoked issuer cursor limit = do
  stored ← gets (λ s. s.issuer_revoked_list issuer)
  let list = unwrap_or stored []
  let total = length list
  if leb total cursor || limit == 0 then pure [] else do
    sum ← expect (checked_add u32_max cursor limit)
    let end = min sum total
    copy_range list (end - cursor) cursor []
