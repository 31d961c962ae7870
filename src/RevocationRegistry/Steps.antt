-- ===== src/RevocationRegistry/Steps.antt =====
-- The entry points of contracts/revocation-registry/src/lib.rs that can write, as one relation
-- between the states before and after a successful invocation.
use stellar_did_credit.Base.{List, ℕ, ◌≡◌}
use stellar_did_credit.Host.{Address, Env, Hash, ok}
use stellar_did_credit.RevocationRegistry.State.{Method, Registry}
use stellar_did_credit.RevocationRegistry.Admin.{
  accept_admin, initialize, maintain_storage, pause, propose_new_admin, set_batch_limit,
  set_identity_oracle, unpause, upgrade,
}
use stellar_did_credit.RevocationRegistry.Revoke.{Peer, batch_revoke, revoke}

pub data Request : Type 0 where
  initialize_with : Address → Request
  pause_all unpause_all maintain : Request
  set_limit : Address → ℕ → Request
  set_oracle propose accept : Address → Request
  revoke_one : Address → Address → Hash → Request
  revoke_batch : Address → List Hash → Request
  upgrade_to : Hash → Request

unfoldable pub run : Peer → Request → Method (Unit {0})
run peer (initialize_with a) = initialize a
run peer pause_all = pause
run peer unpause_all = unpause
run peer maintain = maintain_storage
run peer (set_limit a n) = set_batch_limit a n
run peer (set_oracle a) = set_identity_oracle a
run peer (propose a) = propose_new_admin a
run peer (accept a) = accept_admin a
run peer (revoke_one issuer subject h) = revoke peer issuer subject h
run peer (revoke_batch issuer hs) = batch_revoke issuer hs
run peer (upgrade_to w) = upgrade w

-- One committed invocation. The environment and the peer may differ from call to call.
pub data Step (s t : Registry) : Type 0 where
  invocation : (peer : Peer) (req : Request) (env : Env) → run peer req env s ≡ ok tt t → Step s t

pub data Reach (s : Registry) : Registry → Type 0 where
  here : Reach s s
  next : {t u : Registry} → Reach s t → Step t u → Reach s u
