-- ===== src/RevocationRegistry/Decide.antt =====
-- How `revoke` and `batch_revoke` end, on every branch.
use stellar_did_credit.Base.{
  Bool, Bool-cases, List, Option, Option-cases, arith, false, inl, inr, length, ltb, none, some,
  true, unwrap_or, ◌≡◌, ◌≤◌,
}
use stellar_did_credit.Host.{Address, Env, Hash, IsOk, IsOk-Ensures, Outcome, err, ok, trap}
use stellar_did_credit.RevocationRegistry.State.{
  Registry, RevocationRegistryError, batch_too_large, issuer_mismatch, max_batch_size,
}
use stellar_did_credit.RevocationRegistry.Revoke.{Peer, batch_revoke, revoke}
use stellar_did_credit.RevocationRegistry.Effects.{Revokes, list_of, revoke-Revokes}
use stellar_did_credit.RevocationRegistry.Batch.{
  RevokesAll, any_foreign, batch_revoke-RevokesAll, batch_revoke_foreign, is_foreign,
  revoke_each-LoopPost,
}

-- The identity oracle, if one is linked, accepts the notice of a revocation.
abbrev pub accepts : Peer → Address → Address → Hash → Option Address → Bool
accepts peer issuer subject h none = true
accepts peer issuer subject h (some oracle) =
    peer (record { oracle = oracle; issuer = issuer; subject = subject; vc_hash = h })

-- How a revocation that passes its first two checks must end.
abbrev pub RevokeEnds :
    Address
    → Hash
    → Registry
    → Bool
    → Bool
    → Outcome RevocationRegistryError Registry (Unit {0})
    → Type 0
RevokeEnds issuer h s true accepted o = o ≡ err issuer_mismatch
RevokeEnds issuer h s false true o = (t : Registry) × (o ≡ ok tt t) × Revokes issuer h s t
RevokeEnds issuer h s false false o = o ≡ trap

revoke-IsOk :
    (peer : Peer) (issuer subject : Address) (h : Hash) (env : Env) (s : Registry)
    → unwrap_or s.paused false ≡ false
    → env.authorized issuer ≡ true
    → s.reentrancy_lock ≡ none
    → is_foreign s issuer h ≡ false
    → accepts peer issuer subject h s.identity_oracle_id ≡ true
    → IsOk (revoke peer issuer subject h env s)
unfolding revoke
revoke-IsOk peer issuer subject h env s unpaused auth unlocked own accepted =
    elim (Option-cases s.identity_oracle_id) [ inl e ↦ grind arith | inr (o, e) ↦ grind arith ]

-- On a registry that is not paused, a revocation that its issuer authorized while the guard is
-- open fails with `IssuerMismatch` exactly if the hash is registered to another issuer, otherwise
-- traps exactly if the linked identity oracle rejects it, and otherwise revokes that hash and no
-- other.
pub revoke_ends :
    (peer : Peer) (issuer subject : Address) (h : Hash) (env : Env) (s : Registry)
    → unwrap_or s.paused false ≡ false
    → env.authorized issuer ≡ true
    → s.reentrancy_lock ≡ none
    → RevokeEnds issuer h s
        (is_foreign s issuer h)
        (accepts peer issuer subject h s.identity_oracle_id)
        (revoke peer issuer subject h env s)
unfolding revoke
revoke_ends peer issuer subject h env s unpaused auth unlocked =
    elim (Bool-cases (is_foreign s issuer h)) [
      | inl foreign ↦ rw foreign (ground arith)
      | inr own ↦ elim (Bool-cases (accepts peer issuer subject h s.identity_oracle_id)) [
        | inl accepted ↦
            rw (own, accepted)
              (IsOk-Ensures (revoke peer issuer subject h env s)
                (revoke-IsOk peer issuer subject h env s unpaused auth unlocked own accepted)
                (revoke-Revokes peer issuer subject h env s))
        | inr rejected ↦ rw (own, rejected) (ground arith)
      ]
    ]

-- How a batch that passes its first two checks must end.
abbrev pub BatchEnds :
    Address
    → List Hash
    → Registry
    → Bool
    → Bool
    → Outcome RevocationRegistryError Registry (Unit {0})
    → Type 0
BatchEnds issuer hs s true foreign o = o ≡ err batch_too_large
BatchEnds issuer hs s false true o = o ≡ err issuer_mismatch
BatchEnds issuer hs s false false o = (t : Registry) × (o ≡ ok tt t) × RevokesAll issuer hs s t

batch_revoke-IsOk :
    (issuer : Address) (hs : List Hash) (env : Env) (s : Registry)
    → unwrap_or s.paused false ≡ false
    → env.authorized issuer ≡ true
    → length hs ≤ unwrap_or s.batch_limit max_batch_size
    → any_foreign s issuer hs ≡ false
    → IsOk (batch_revoke issuer hs env s)
unfolding batch_revoke
batch_revoke-IsOk issuer hs env s unpaused auth small own =
    ground (arith, revoke_each-LoopPost issuer hs (list_of s issuer) false env s)

-- On a registry that is not paused, a batch that its issuer authorized fails with `BatchTooLarge`
-- exactly if it is longer than the limit, otherwise with `IssuerMismatch` exactly if a hash of it
-- is registered to another issuer, and otherwise revokes each of its hashes and nothing else.
pub batch_revoke_ends :
    (issuer : Address) (hs : List Hash) (env : Env) (s : Registry)
    → unwrap_or s.paused false ≡ false
    → env.authorized issuer ≡ true
    → BatchEnds issuer hs s
        (ltb (unwrap_or s.batch_limit max_batch_size) (length hs))
        (any_foreign s issuer hs)
        (batch_revoke issuer hs env s)
batch_revoke_ends issuer hs env s unpaused auth =
    elim (Bool-cases (ltb (unwrap_or s.batch_limit max_batch_size) (length hs))) [
      | inl large ↦ rw large (unfold batch_revoke in ground arith)
      | inr small ↦ elim (Bool-cases (any_foreign s issuer hs)) [
        | inl foreign ↦
            rw (small, foreign)
              (batch_revoke_foreign issuer hs env s unpaused auth (ground arith) foreign)
        | inr own ↦
            rw (small, own)
              (IsOk-Ensures (batch_revoke issuer hs env s)
                (batch_revoke-IsOk issuer hs env s unpaused auth (ground arith) own)
                (batch_revoke-RevokesAll issuer hs env s))
      ]
    ]
