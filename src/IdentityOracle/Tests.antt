-- ===== src/IdentityOracle/Tests.antt =====
-- The theorems on the identity oracle at concrete states.
use stellar_did_credit.IdentityOracle.ExactReach.{Reach-deployed-IsExact}
use stellar_did_credit.IdentityOracle.Links.{IsExact}
use stellar_did_credit.IdentityOracle.Admin.{initialize, register_issuer}
use stellar_did_credit.IdentityOracle.Steps.{
  Reach, add_issuer, anchor, here, initialize_with, invocation, next, run,
}
use stellar_did_credit.Base.{
  [], arith, false, nat_eq, none, put, refl, some, true, ℕ, ◌*◌, ◌==◌, ◌∷◌, ◌≡◌,
}
use stellar_did_credit.Host.{Env, Hash, committed, ok, trap}
use stellar_did_credit.Credential.{IdentityVcRecord}
use stellar_did_credit.IdentityOracle.State.{
  Identity, RegistryClient, compute_active_vc_count, deployed, is_record_revoked,
  load_protocol_stats,
}
use stellar_did_credit.IdentityOracle.Credentials.{
  anchor_vc, anchor_vc_typed, has_anchor, mark_vc_revoked, push_anchor,
}
use stellar_did_credit.IdentityOracle.Queries.{
  get_active_vc_count, get_vc_details, is_deactivated, is_verified, verify_vc,
}
use stellar_did_credit.IdentityOracle.Active.{active_agree}
use stellar_did_credit.IdentityOracle.Marks.{MarkEnds, mark_vc_revoked_ends}

-- Everybody authorized the invocation, at this ledger.
abbrev pub ledger_at : ℕ → Env
ledger_at ledger = record {
  sequence = ledger;
  timestamp = 5 * ledger;
  authorized = λ _. true;
  strkey = λ _. [];
  current_contract = 9;
}

-- A registry that has revoked the hash 600.
abbrev pub revoked_600 : RegistryClient
revoked_600 = record {
  is_revoked = λ registry h. some (h == 600);
  set_identity_oracle = λ registry oracle. true;
}

abbrev pub anchored : Hash → IdentityVcRecord
anchored h = record { vc_hash = h; issuer = 7; anchored_at = 100; revoked = false }

-- Issuer 7 anchored 500 and 600 for subject 10; the registry is linked.
abbrev pub linked : Identity
linked = record {
  admin = some 1;
  paused = none;
  pending_admin = none;
  storage_version = some 2;
  issuers_index = some (7 ∷ []);
  trusted_issuer = put 7 true (λ _. none);
  did_document = λ _. none;
  vc_anchors = put 10 (anchored 500 ∷ anchored 600 ∷ []) (λ _. none);
  active_vc_count = put 10 1 (λ _. none);
  revocation_registry_id = some 4;
  issuer_tier = λ _. none;
  vc_credential_type = λ _. none;
  protocol_stats = none;
  deactivated = λ _. none;
  last_state_change = put 10 20 (λ _. none);
  wasm = none;
  events = [];
}

-- The registry revoked 600 before it was anchored, so the count of active credentials starts at 0,
-- and a mark that the registry sends later finds nothing to subtract from.
abbrev unanchored : Identity
unanchored = record linked { vc_anchors = λ _. none; active_vc_count = λ _. none }

abbrev anchored_late : Identity
anchored_late = committed unanchored (anchor_vc revoked_600 7 10 600 (ledger_at 30) unanchored)

late_mark : mark_vc_revoked revoked_600 7 10 600 (ledger_at 40) anchored_late ≡ trap
unfolding anchor_vc push_anchor is_record_revoked mark_vc_revoked
late_mark = refl

active_agree_example :
    let list = anchored 500 ∷ [] in
    (get_vc_details revoked_600 10 (ledger_at 30) linked ≡ ok list linked)
    × (compute_active_vc_count revoked_600 10 (ledger_at 30) linked ≡ ok 1 linked)
    × (verify_vc revoked_600 10 600 (ledger_at 30) linked ≡ ok false linked)
    × (is_verified revoked_600 10 (ledger_at 30) linked ≡ ok true linked)
    × (get_active_vc_count revoked_600 10 (ledger_at 30) linked ≡ ok 1 linked)
unfolding is_deactivated
active_agree_example = active_agree revoked_600 10 600 (ledger_at 30) linked refl (omega arith)

mark_vc_revoked_ends_example :
    MarkEnds 7 10 500 linked true true 1
      (mark_vc_revoked revoked_600 7 10 500 (ledger_at 30) linked)
unfolding has_anchor
mark_vc_revoked_ends_example =
    mark_vc_revoked_ends revoked_600 7 10 500 (ledger_at 30) linked refl refl refl
      (unfold load_protocol_stats in omega arith)

abbrev with_admin : Identity
with_admin = committed deployed (run revoked_600 (initialize_with 1) (ledger_at 10) deployed)

abbrev with_issuer : Identity
with_issuer = committed with_admin (run revoked_600 (add_issuer 7) (ledger_at 11) with_admin)

abbrev with_credential : Identity
with_credential =
    committed with_issuer
      (run revoked_600 (anchor 7 10 500 "employment") (ledger_at 12) with_issuer)

Reach-with_credential : Reach deployed with_credential
unfolding run initialize register_issuer anchor_vc_typed push_anchor is_record_revoked
Reach-with_credential =
    next
      (next (next here (invocation revoked_600 (initialize_with 1) (ledger_at 10) refl))
        (invocation revoked_600 (add_issuer 7) (ledger_at 11) refl))
      (invocation revoked_600 (anchor 7 10 500 "employment") (ledger_at 12) refl)

Reach-deployed-IsExact_example : IsExact with_credential
Reach-deployed-IsExact_example = Reach-deployed-IsExact Reach-with_credential
