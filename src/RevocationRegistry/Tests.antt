-- ===== src/RevocationRegistry/Tests.antt =====
-- The theorems on the revocation registry at concrete states.
use stellar_did_credit.Base.{
  [], arith, contains, false, nat_eq, none, put, refl, some, true, ◌∷◌, ◌≡◌,
}
use stellar_did_credit.Host.{Env, Hash, committed, ok}
use stellar_did_credit.RevocationRegistry.State.{Event, Registry, deployed}
use stellar_did_credit.RevocationRegistry.Admin.{initialize}
use stellar_did_credit.RevocationRegistry.Revoke.{Peer, batch_revoke, revoke}
use stellar_did_credit.RevocationRegistry.Queries.{
  get_batch_limit, get_revocation_record, is_paused, is_revoked,
}
use stellar_did_credit.RevocationRegistry.Steps.{
  Reach, here, initialize_with, invocation, next, revoke_batch, revoke_one, run,
}
use stellar_did_credit.RevocationRegistry.Invariant.{IsConsistent, Reach-deployed-IsConsistent}
use stellar_did_credit.RevocationRegistry.Permanence.{Reach-is_revoked, run_revoked_by}
use stellar_did_credit.RevocationRegistry.Control.{IsReady}
use stellar_did_credit.RevocationRegistry.Decide.{BatchEnds, batch_revoke_ends}

-- Everybody authorized the invocation.
abbrev signed : Env
signed = record {
  sequence = 100;
  timestamp = 5000;
  authorized = λ _. true;
  strkey = λ _. [];
  current_contract = 0;
}

abbrev accepting : Peer
accepting n = true

-- Administrator 1, identity oracle 9; issuer 7 has the hashes 500 and 501, issuer 8 has 600.
abbrev running : Registry
running = record deployed {
  admin = some 1;
  identity_oracle_id = some 9;
  batch_limit = some 100;
  registered_vc_issuer = put 500 7 (put 501 7 (put 600 8 (λ _. none)));
  status = put 500 true (put 501 true (put 600 true (λ _. none)));
  issuer_of_vc = put 500 7 (put 501 7 (put 600 8 (λ _. none)));
  issuer_revoked_list = put 7 (500 ∷ 501 ∷ []) (put 8 (600 ∷ []) (λ _. none));
}

abbrev started : Registry
started = record deployed {
  admin = some 1;
  batch_limit = some 100;
  events = Event.initialized 1 ∷ [];
}

abbrev pub after_revoke : Registry
after_revoke = committed started (run accepting (revoke_one 7 3 500) signed started)

revoked_500 : run accepting (revoke_one 7 3 500) signed started ≡ ok tt after_revoke
unfolding run revoke
revoked_500 = refl

pub is_revoked_500 : is_revoked after_revoke 500 ≡ true
unfolding run revoke is_revoked
is_revoked_500 = refl

Reach-started : Reach deployed started
unfolding run initialize
Reach-started = next here (invocation accepting (initialize_with 1) signed refl)

Reach-after_revoke : Reach deployed after_revoke
Reach-after_revoke =
    next Reach-started (invocation accepting (revoke_one 7 3 500) signed revoked_500)

abbrev pub after_batch : Registry
after_batch =
    committed after_revoke (run accepting (revoke_batch 7 (500 ∷ 501 ∷ [])) signed after_revoke)

revoked_batch :
    run accepting (revoke_batch 7 (500 ∷ 501 ∷ [])) signed after_revoke ≡ ok tt after_batch
unfolding run batch_revoke revoke
revoked_batch = refl

pub Reach-after_batch : Reach after_revoke after_batch
Reach-after_batch =
    next here (invocation accepting (revoke_batch 7 (500 ∷ 501 ∷ [])) signed revoked_batch)

pub after_revoke-IsConsistent : IsConsistent after_revoke
after_revoke-IsConsistent = Reach-deployed-IsConsistent Reach-after_revoke

running-IsReady : IsReady running
unfolding get_batch_limit
running-IsReady = record {
  unlocked = refl;
  limit_positive = omega arith;
  limit_bounded = omega arith;
}

batch_revoke_ends_example :
    BatchEnds 7 (502 ∷ 600 ∷ []) running false true (batch_revoke 7 (502 ∷ 600 ∷ []) signed running)
batch_revoke_ends_example = batch_revoke_ends 7 (502 ∷ 600 ∷ []) signed running refl refl

Reach-deployed-IsConsistent_example : IsConsistent after_revoke
Reach-deployed-IsConsistent_example = Reach-deployed-IsConsistent Reach-after_revoke

Reach-is_revoked_example :
    (is_revoked after_batch 500 ≡ true)
    × (get_revocation_record after_batch 500 ≡ get_revocation_record after_revoke 500)
Reach-is_revoked_example =
    Reach-is_revoked 500 Reach-after_batch after_revoke-IsConsistent is_revoked_500

run_revoked_by_example :
    (contains {A = Hash} 500 (500 ∷ []) ≡ true)
    × (true ≡ true)
    × (is_paused started ≡ false)
    × (get_revocation_record after_revoke 500 ≡ some 7)
run_revoked_by_example =
    run_revoked_by accepting (revoke_one 7 3 500) signed started 500 revoked_500
      (unfold is_revoked in refl) is_revoked_500
