-- ===== src/RevocationRegistry/Control.antt =====
-- Who controls the registry: the administrator, the pause switch, the batch limit and the guard
-- around the call of the identity oracle.
use stellar_did_credit.RevocationRegistry.Batch.{claimed, marked}
use stellar_did_credit.Base.{
  Bool, Bool-cases, List, Option, Option-cases, [], arith, false, inl, inr, nat_eq, none, some,
  true, unwrap_or, ℕ, ◌==◌, ◌∙◌, ◌∷◌, ◌≡◌, ◌≤◌, ◌⊎◌,
}
use stellar_did_credit.Host.{Address, Ensures, Ensures-both, Ensures-imp, Env, Hash, err}
use stellar_did_credit.RevocationRegistry.State.{Notice, Registry, contract_paused, max_batch_size}
use stellar_did_credit.RevocationRegistry.Admin.{
  accept_admin, initialize, maintain_storage, pause, propose_new_admin, set_batch_limit,
  set_identity_oracle, unpause, upgrade,
}
use stellar_did_credit.RevocationRegistry.Revoke.{
  Peer, batch_revoke, claim_issuer, revoke, revoke_each,
}
use stellar_did_credit.RevocationRegistry.Queries.{get_batch_limit, is_paused}
use stellar_did_credit.RevocationRegistry.Steps.{
  Request, accept, initialize_with, maintain, pause_all, propose, revoke_batch, revoke_one, run,
  set_limit, set_oracle, unpause_all, upgrade_to,
}

-- The administrator and the settings that only an administrator writes.
abbrev pub controls :
    Registry
    → Option Address × Option Bool × Option Address × Option Address × Option ℕ × Option Hash
controls s = (s.admin, s.paused, s.pending_admin, s.identity_oracle_id, s.batch_limit, s.wasm)

abbrev pub Frame : Registry → Registry → Type 0
Frame s t = controls t ≡ controls s

revoke-Frame :
    (peer : Peer) (issuer subject : Address) (h : Hash) (env : Env) (s : Registry)
    → Ensures (λ _. Frame s) (revoke peer issuer subject h env s)
unfolding revoke
revoke-Frame peer issuer subject h env s = grind arith

revoke_each-Frame :
    (issuer : Address) (hs list : List Hash) (m : Bool) (env : Env) (s : Registry)
    → Ensures
        (λ _ t. Frame s t × (t.notices ≡ s.notices) × (t.reentrancy_lock ≡ s.reentrancy_lock))
        (revoke_each issuer hs list m env s)
unfolding revoke_each
revoke_each-Frame issuer [] list m env s = ground arith
revoke_each-Frame issuer (h ∷ hs) list m env s = elim (Option-cases (s.registered_vc_issuer h)) [
  | inl e ↦
      rw (e, claim_issuer)
        (revoke_each-Frame issuer hs _ _ env (marked issuer h (claimed issuer h s)))
  | inr (a, e) ↦ elim (Bool-cases (a == issuer)) [
    | inl own ↦ rw (e, claim_issuer, own) (revoke_each-Frame issuer hs _ _ env (marked issuer h s))
    | inr other ↦ rw (e, claim_issuer, other) tt
  ]
]

batch_revoke-Frame :
    (issuer : Address) (hs : List Hash) (env : Env) (s : Registry)
    → Ensures
        (λ _ t. Frame s t × (t.notices ≡ s.notices) × (t.reentrancy_lock ≡ s.reentrancy_lock))
        (batch_revoke issuer hs env s)
unfolding batch_revoke
batch_revoke-Frame issuer hs env s =
    ground
      (arith, revoke_each-Frame issuer hs (unwrap_or (s.issuer_revoked_list issuer) []) false env s)

-- How the administrator and the settings may differ after an invocation.
abbrev pub IsControlled : Env → Registry → Registry → Type 0
IsControlled env s t =
    Frame s t
    ⊎ ((s.admin ≡ none) × (a : Address) × (t.admin ≡ some a) × (env.authorized a ≡ true))
    ⊎ ((t.admin ≡ s.admin) × (a : Address) × (s.admin ≡ some a) × (env.authorized a ≡ true))
    ⊎ ((a : Address) × (s.pending_admin ≡ some a)
        × (t.admin ≡ some a)
        × (env.authorized a ≡ true)
        × (t.pending_admin ≡ none)
        × (is_paused s ≡ false))

-- A successful request leaves the administrator and the settings alone; or sets an authorized
-- administrator on a contract that had none; or was authorized by the administrator, who stays; or
-- was authorized by the proposed administrator, who takes over while the registry is not paused.
pub run-IsControlled :
    (peer : Peer) (req : Request) (env : Env) (s : Registry)
    → Ensures (λ _. IsControlled env s) (run peer req env s)
unfolding run is_paused
run-IsControlled peer (initialize_with a) env s = unfold initialize in ground arith
run-IsControlled peer pause_all env s = unfold pause in ground arith
run-IsControlled peer unpause_all env s = unfold unpause in ground arith
run-IsControlled peer maintain env s = unfold maintain_storage in ground arith
run-IsControlled peer (set_limit a n) env s = unfold set_batch_limit in ground arith
run-IsControlled peer (set_oracle a) env s = unfold set_identity_oracle in ground arith
run-IsControlled peer (propose a) env s = unfold propose_new_admin in ground arith
run-IsControlled peer (accept a) env s = unfold accept_admin in ground arith
run-IsControlled peer (revoke_one issuer subject h) env s =
    Ensures-imp (λ t f. inl f) (revoke peer issuer subject h env s)
      (revoke-Frame peer issuer subject h env s)
run-IsControlled peer (revoke_batch issuer hs) env s =
    Ensures-imp (λ t f. inl f.0) (batch_revoke issuer hs env s) (batch_revoke-Frame issuer hs env s)
run-IsControlled peer (upgrade_to w) env s = unfold upgrade in ground arith

-- The requests that check the pause switch first.
abbrev pub is_guarded : Request → Bool
is_guarded (initialize_with a) = false
is_guarded pause_all = false
is_guarded unpause_all = false
is_guarded (propose a) = false
is_guarded req = true

-- On a paused registry every request other than initializing, pausing, unpausing and proposing an
-- administrator is refused with `ContractPaused`, whoever sends it.
pub run_paused :
    (peer : Peer) (req : Request) (env : Env) (s : Registry)
    → is_guarded req ≡ true
    → is_paused s ≡ true
    → run peer req env s ≡ err contract_paused
unfolding run is_paused
run_paused peer (initialize_with a) env s g p = cc
run_paused peer pause_all env s g p = cc
run_paused peer unpause_all env s g p = cc
run_paused peer (propose a) env s g p = cc
run_paused peer maintain env s g p = unfold maintain_storage in ground arith
run_paused peer (set_limit a n) env s g p = unfold set_batch_limit in ground arith
run_paused peer (set_oracle a) env s g p = unfold set_identity_oracle in ground arith
run_paused peer (accept a) env s g p = unfold accept_admin in ground arith
run_paused peer (revoke_one issuer subject h) env s g p = unfold revoke in ground arith
run_paused peer (revoke_batch issuer hs) env s g p = unfold batch_revoke in ground arith
run_paused peer (upgrade_to w) env s g p = unfold upgrade in ground arith

-- The guard is open and the batch limit is a number that `set_batch_limit` accepts.
pub record IsReady (s : Registry) : Type 0 where
  pub unlocked : s.reentrancy_lock ≡ none
  pub limit_positive : 1 ≤ get_batch_limit s
  pub limit_bounded : get_batch_limit s ≤ max_batch_size

revoke-unlocked :
    (peer : Peer) (issuer subject : Address) (h : Hash) (env : Env) (s : Registry)
    → s.reentrancy_lock ≡ none
    → Ensures (λ _ t. t.reentrancy_lock ≡ none) (revoke peer issuer subject h env s)
unfolding revoke
revoke-unlocked peer issuer subject h env s e = grind arith

IsReady-Frame : (s t : Registry) → Frame s t → t.reentrancy_lock ≡ none → IsReady s → IsReady t
unfolding get_batch_limit
IsReady-Frame s t f e r = record {
  unlocked = e;
  limit_positive = ground arith;
  limit_bounded = ground arith;
}

-- If the reentrancy guard is open and the batch limit lies between 1 and 100, both still hold
-- after every successful request; so the guard that `revoke` closes for its call is open again.
pub run-IsReady :
    (peer : Peer) (req : Request) (env : Env) (s : Registry)
    → IsReady s
    → Ensures (λ _. IsReady) (run peer req env s)
unfolding run get_batch_limit
run-IsReady peer (initialize_with a) env s r = unfold initialize in ground arith
run-IsReady peer pause_all env s r = unfold pause in ground arith
run-IsReady peer unpause_all env s r = unfold unpause in ground arith
run-IsReady peer maintain env s r = unfold maintain_storage in ground arith
run-IsReady peer (set_limit a n) env s r = unfold set_batch_limit in ground arith
run-IsReady peer (set_oracle a) env s r = unfold set_identity_oracle in ground arith
run-IsReady peer (propose a) env s r = unfold propose_new_admin in ground arith
run-IsReady peer (accept a) env s r = unfold accept_admin in ground arith
run-IsReady peer (revoke_one issuer subject h) env s r =
    Ensures-both (λ t f e. IsReady-Frame s t f e r) (revoke peer issuer subject h env s)
      (revoke-Frame peer issuer subject h env s)
      (revoke-unlocked peer issuer subject h env s r.unlocked)
run-IsReady peer (revoke_batch issuer hs) env s r =
    Ensures-imp (λ t f. IsReady-Frame s t f.0 (f.2 ∙ r.unlocked) r) (batch_revoke issuer hs env s)
      (batch_revoke-Frame issuer hs env s)
run-IsReady peer (upgrade_to w) env s r = unfold upgrade in ground arith

abbrev pub IsNotified :
    Peer → Address → Address → Hash → Option Address → Registry → Registry → Type 0
IsNotified peer issuer subject h none s t = t.notices ≡ s.notices
IsNotified peer issuer subject h (some oracle) s t =
    let n : Notice = record { oracle = oracle; issuer = issuer; subject = subject; vc_hash = h } in
    (peer n ≡ true) × (t.notices ≡ n ∷ s.notices)

-- A successful revocation tells the linked identity oracle exactly once, with the issuer, the
-- subject and the hash, and the oracle accepted; with no oracle linked nothing is sent.
pub revoke_notifies :
    (peer : Peer) (issuer subject : Address) (h : Hash) (env : Env) (s : Registry)
    → Ensures
        (λ _ t. IsNotified peer issuer subject h s.identity_oracle_id s t)
        (revoke peer issuer subject h env s)
unfolding revoke
revoke_notifies peer issuer subject h env s = grind arith
