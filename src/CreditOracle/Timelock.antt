-- ===== src/CreditOracle/Timelock.antt =====
-- The scoring weights: always valid, and changed only after the time lock.
use stellar_did_credit.CreditOracle.Frame.{lock, run-Unchanged}
use stellar_did_credit.CreditOracle.Steps.{
  Reach, Request, apply_config, here, initialize_with, invocation, next, propose_config, run,
}
use stellar_did_credit.Base.{
  Bool, Option, arith, false, inl, inr, is_some, ltb, none, refl, some, true, ℕ, ◌+◌, ◌↔◌, ◌≡◌, ◌≢◌,
  ◌≤◌, ◌⊎◌,
}
use stellar_did_credit.Host.{Address, Ensures, Ensures-imp, Env, Outcome, ensured, err, ok, trap}
use stellar_did_credit.CreditOracle.Scoring.Bounds.{IsWeighting}
use stellar_did_credit.CreditOracle.Types.{
  CreditOracleError, IdentityClient, ScoringWeights, is_valid, timelock_not_expired,
}
use stellar_did_credit.CreditOracle.State.{Oracle, deployed}
use stellar_did_credit.CreditOracle.Admin.{default_weights, initialize, is_paused}
use stellar_did_credit.CreditOracle.Weights.{
  apply_weights, get_pending_weights, propose_weights, timelock_ledgers,
}

abbrev pub Sound : ScoringWeights → Type 0
Sound w = IsWeighting w.vc_weight w.tx_weight w.repayment_weight

-- `is_valid` accepts exactly the weights of at least 10 each that sum to 100.
pub is_valid_lem : (w : ScoringWeights) → (is_valid w ≡ some true) ↔ Sound w
unfolding is_valid
is_valid_lem w = ((λ h. ground arith), λ h. ground arith)

-- What `apply_weights` must do, early or not.
abbrev pub Applies : ScoringWeights → Bool → Outcome CreditOracleError Oracle (Unit {0}) → Type 0
Applies w true o = o ≡ err timelock_not_expired
Applies w false (ok a t) =
    (t.config ≡ some w) × (t.pending_weights ≡ none) × (t.pending_weights_effective_ledger ≡ none)
Applies w false (err e) = ⊥
Applies w false trap = ⊥

-- Right after a successful proposal at ledger `l`, on a contract that is not paused, applying the
-- weights fails with `TimelockNotExpired` before ledger `l + 17280`, and succeeds from there on,
-- for anybody: the weights then are the configuration, and nothing is pending any more.
pub apply_weights_timelock :
    (w : ScoringWeights) (env later : Env) (s : Oracle) {t : Oracle}
    → is_paused s ≡ false
    → propose_weights w env s ≡ ok tt t
    → Applies w (ltb later.sequence (env.sequence + timelock_ledgers)) (apply_weights later t)
unfolding propose_weights apply_weights is_paused
apply_weights_timelock w env later s {t} unpaused e =
    ensured
      (λ _ t.
        Applies w (ltb later.sequence (env.sequence + timelock_ledgers)) (apply_weights later t))
      (propose_weights w env s) (ground arith) e

-- How the configuration and the pending weights may differ after an invocation at `env`.
abbrev pub IsLocked : Env → Oracle → Oracle → Type 0
IsLocked env s t =
    ((t.config ≡ s.config)
      × (t.pending_weights ≡ s.pending_weights)
      × (t.pending_weights_effective_ledger ≡ s.pending_weights_effective_ledger))
    ⊎ ((s.admin ≡ none)
        × (t.config ≡ some default_weights)
        × (t.pending_weights ≡ s.pending_weights)
        × (t.pending_weights_effective_ledger ≡ s.pending_weights_effective_ledger))
    ⊎ ((w : ScoringWeights) × (a : Address) × (t.config ≡ s.config)
        × (t.pending_weights ≡ some w)
        × (t.pending_weights_effective_ledger ≡ some (env.sequence + timelock_ledgers))
        × (is_valid w ≡ some true)
        × (s.admin ≡ some a)
        × (env.authorized a ≡ true))
    ⊎ ((w : ScoringWeights) × (l : ℕ) × (s.pending_weights ≡ some w)
        × (s.pending_weights_effective_ledger ≡ some l)
        × (l ≤ env.sequence)
        × (t.config ≡ some w)
        × (t.pending_weights ≡ none)
        × (t.pending_weights_effective_ledger ≡ none)
        × (is_paused s ≡ false))

-- In a successful request the configuration changes only by `initialize`, on a contract with no
-- administrator, or by `apply_weights`, to the pending weights, at or after their ledger and not
-- while the contract is paused. Weights become pending only if they are valid and the
-- administrator authorized them, with a ledger that is 17280 ahead.
pub run-IsLocked :
    (client : IdentityClient) (req : Request) (env : Env) (s : Oracle)
    → Ensures (λ _. IsLocked env s) (run client req env s)
unfolding run is_paused
run-IsLocked client (initialize_with a) env s = unfold initialize in ground arith
run-IsLocked client (propose_config w) env s = unfold propose_weights in ground arith
run-IsLocked client apply_config env s = unfold apply_weights in ground arith
run-IsLocked client req env s =
    Ensures-imp (λ t f. inl (f lock refl)) (run client req env s) (run-Unchanged client req env s)

abbrev pub IsSoundOption : Option ScoringWeights → Type 0
IsSoundOption none = Unit
IsSoundOption (some w) = Sound w

-- The weights in force and the pending ones are valid, and pending weights have a ledger.
pub record HasSoundWeights (s : Oracle) : Type 0 where
  pub current : IsSoundOption s.config
  pub upcoming : IsSoundOption s.pending_weights
  pub paired : is_some s.pending_weights ≡ is_some s.pending_weights_effective_ledger

IsLocked-HasSoundWeights :
    (env : Env) (s t : Oracle) → IsLocked env s t → HasSoundWeights s → HasSoundWeights t
IsLocked-HasSoundWeights env s t (inl (c, p, l)) h = record {
  current = rw c h.current;
  upcoming = rw p h.upcoming;
  paired = rw (p, l) h.paired;
}
IsLocked-HasSoundWeights env s t (inr (inl (a, c, p, l))) h = record {
  current = rw c (omega arith);
  upcoming = rw p h.upcoming;
  paired = rw (p, l) h.paired;
}
IsLocked-HasSoundWeights env s t (inr (inr (inl (w, a, c, p, l, v, k, o)))) h = record {
  current = rw c h.current;
  upcoming = rw p ((is_valid_lem w).0 v);
  paired = rw (p, l) refl;
}
IsLocked-HasSoundWeights env s t (inr (inr (inr (w, n, p, l, k, c, p', l', u)))) h =
    let sound : IsSoundOption (some w) = rw p at h.upcoming in
    record { current = rw c sound; upcoming = rw p' tt; paired = rw (p', l') refl }

pub Reach-HasSoundWeights : {s t : Oracle} → Reach s t → HasSoundWeights s → HasSoundWeights t
Reach-HasSoundWeights here h = h
Reach-HasSoundWeights {t = t} (next {t = u} r (invocation client req env e)) h =
    IsLocked-HasSoundWeights env u t
      (ensured _ (run client req env u) (run-IsLocked client req env u) e)
      (Reach-HasSoundWeights r h)

-- In every state that a fresh contract can reach, the weights in force and the pending ones are
-- at least 10 each and sum to 100, and `get_pending_weights` does not trap.
pub Reach-deployed-HasSoundWeights :
    {t : Oracle} (env : Env)
    → Reach deployed t
    → HasSoundWeights t × (get_pending_weights env t ≢ trap)
unfolding get_pending_weights
Reach-deployed-HasSoundWeights {t} env r =
    let h = Reach-HasSoundWeights r (record { current = tt; upcoming = tt; paired = refl }) in
    (h, ground (arith, h))
