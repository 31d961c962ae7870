-- ===== src/Together.antt =====
-- The contracts together: the identity oracle (contracts/identity-oracle/src/lib.rs) answers the
-- calls of the credit oracle (contracts/credit-oracle/src/lib.rs).
pub mod Revocation
pub mod Statement
pub mod Peers
pub mod Governed
pub mod Voted
pub mod Enacting
pub mod Tests
use stellar_did_credit.Base.{
  Option, arith, false, length, none, some, true, u32_max, unwrap_or, ℕ, ◌<◌, ◌≡◌, ◌≤◌,
}
use stellar_did_credit.Host.{Address, Env, Outcome, ensured, err, ok, trap}
use stellar_did_credit.CreditOracle.Types.{IdentityClient, RepaymentRecord, ScoreRecord}
use stellar_did_credit.CreditOracle.State.{Oracle}
use stellar_did_credit.CreditOracle.Scoring.{min_score}
use stellar_did_credit.CreditOracle.Reading.{get_score}
use stellar_did_credit.CreditOracle.Compute.{
  compute_score, in_cooldown, load_repayment, score_inputs, tally_credentials,
}
use stellar_did_credit.IdentityOracle.State.{
  Identity, IdentityOracleError, RegistryClient, anchors_of,
}
use stellar_did_credit.IdentityOracle.Identities.{deactivate_identity}
use stellar_did_credit.IdentityOracle.Queries.{
  get_active_vc_count, get_last_state_change_ledger, get_vc_credential_type, get_vc_details,
  is_deactivated, verify_vc,
}
use stellar_did_credit.IdentityOracle.Deactivation.{
  Deactivates, deactivate_identity-Deactivates, unflagged, unflagged-le,
}

-- What the caller of a read sees of its end.
abbrev answer : {A : Type 0} → Outcome IdentityOracleError Identity A → Option A
answer (ok a s) = some a
answer (err e) = none
answer trap = none

-- The identity oracle in a state, as the credit oracle sees it. The credit oracle asks for the
-- active count only to see whether it is answered, so what that call caches is left out.
abbrev pub client_of : RegistryClient → Env → Identity → IdentityClient
client_of registry env i = record {
  get_active_vc_count = λ oracle u. answer (get_active_vc_count registry u env i);
  is_deactivated = λ oracle u. some (is_deactivated i u);
  get_vc_details = λ oracle u. answer (get_vc_details registry u env i);
  verify_vc = λ oracle u h. answer (verify_vc registry u h env i);
  get_vc_credential_type = λ oracle u h. some (get_vc_credential_type i u h);
  get_last_state_change_ledger = λ oracle u. some (get_last_state_change_ledger i u);
}

-- After a deactivation at a ledger later than that of the stored score, with the identity oracle
-- linked: `get_score` returns the stored record as stale, and a computation that passes the pause
-- switch and the cooldown and can read the repayment history returns the minimum and writes
-- nothing, so the stored score is kept.
pub deactivation_ages_score :
    (registry : RegistryClient) (u : Address) (env later : Env) (i : Identity) (s : Oracle) {n : ℕ}
    {j : Identity} {oracle : Address} {r : ScoreRecord} {history : RepaymentRecord}
    → length (anchors_of i u) ≤ u32_max
    → deactivate_identity u env i ≡ ok n j
    → s.identity_oracle_id ≡ some oracle
    → s.score u ≡ some r
    → r.computed_at_ledger < env.sequence
    → unwrap_or s.paused false ≡ false
    → in_cooldown (unwrap_or s.compute_cooldown_ledgers 0) later (s.score u) ≡ false
    → load_repayment u later s ≡ ok history s
    → (get_score (client_of registry later j) later s u ≡ some (record r { stale = true }))
      × (compute_score (client_of registry later j) u later s ≡ ok min_score s)
unfolding get_score compute_score score_inputs tally_credentials
deactivation_ages_score registry u env later i s {n} {j} small done linked scored older unpaused
      cool loaded =
    let d =
      (ensured (λ n t. (n ≡ unflagged (anchors_of i u)) × Deactivates u env i t)
        (deactivate_identity u env i)
        (deactivate_identity-Deactivates u env i (omega (arith, unflagged-le (anchors_of i u))))
        done).1 in
    (ground (arith, d.changed), ground (arith, loaded, d.flagged))
