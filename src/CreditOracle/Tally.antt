-- ===== src/CreditOracle/Tally.antt =====
-- What the loop over the records of the identity oracle adds up.
use stellar_did_credit.Credential.{IdentityVcRecord}
use stellar_did_credit.Base.{
  Bool, List, Option-cases, [], arith, false, if◌then◌else◌, inl, inr, is_some, not, true, u32_max,
  unwrap_or, ℕ, ◌&&◌, ◌+◌, ◌||◌, ◌∷◌, ◌≡◌, ◌≤◌,
}
use stellar_did_credit.Host.{
  Address, Ensures, Ensures-bind, Ensures-map, Env, IsOk, IsOk-bind, IsOk-result, ok,
}
use stellar_did_credit.CreditOracle.Types.{IdentityClient, RecencyDecayConfig}
use stellar_did_credit.CreditOracle.State.{Oracle}
use stellar_did_credit.CreditOracle.Scoring.{recency_multiplier_bps}
use stellar_did_credit.CreditOracle.Scoring.Recency.{
  apply_recency_bps_lem, recency_multiplier_bps_bounds,
}
use stellar_did_credit.CreditOracle.Compute.{
  VcTally, decayed_points, no_tally, tally_identity, tally_one, type_points, weight_of,
}

-- Decay never adds points to a credential.
decayed_points-le :
    (cfg : RecencyDecayConfig) (now anchored_at weight : ℕ)
    → decayed_points cfg now anchored_at weight ≤ type_points weight
unfolding decayed_points type_points
decayed_points-le cfg now anchored_at weight =
    let m = recency_multiplier_bps anchored_at now cfg.decay_bps_per_day cfg.min_recency_bps in
    ground (
      arith,
      recency_multiplier_bps_bounds anchored_at now cfg.decay_bps_per_day cfg.min_recency_bps,
      apply_recency_bps_lem (type_points weight) m,
    )

-- The identity oracle vouches for the record.
abbrev pub is_vouched : IdentityClient → Address → Address → IdentityVcRecord → Bool
is_vouched client oracle u r = unwrap_or (client.verify_vc oracle u r.vc_hash) false

abbrev pub vouched : IdentityClient → Address → Address → List IdentityVcRecord → ℕ
vouched client oracle u [] = 0
vouched client oracle u (r ∷ rs) =
    (if is_vouched client oracle u r then 1 else 0) + vouched client oracle u rs

-- The points of the vouched records, at the weights of their types and without decay.
abbrev pub full_points : IdentityClient → Oracle → Address → Address → List IdentityVcRecord → ℕ
full_points client s oracle u [] = 0
full_points client s oracle u (r ∷ rs) =
    (if is_vouched client oracle u r
      then type_points (weight_of s (client.get_vc_credential_type oracle u r.vc_hash))
      else 0)
    + full_points client s oracle u rs

tally_one_lem :
    (client : IdentityClient) (oracle u : Address) (cfg : RecencyDecayConfig) (r : IdentityVcRecord)
    (acc : VcTally) (env : Env) (s : Oracle)
    → Ensures
        (λ tally t.
          (t ≡ s)
          × (tally.vc_count ≡ acc.vc_count + (if is_vouched client oracle u r then 1 else 0))
          × (tally.vc_points
              ≤ acc.vc_points
                + (if is_vouched client oracle u r
                    then type_points
                        (weight_of s (client.get_vc_credential_type oracle u r.vc_hash))
                    else 0)))
        (tally_one client oracle u cfg r acc env s)
unfolding tally_one
tally_one_lem client oracle u cfg r acc env s =
    elim (Option-cases (client.get_vc_credential_type oracle u r.vc_hash)) [
      | inl e ↦ ground arith
      | inr (type, e) ↦ ground (
        arith,
        decayed_points-le cfg env.timestamp r.anchored_at (unwrap_or (s.vc_weight type) 100),
      )
    ]

tally_identity_sums :
    (client : IdentityClient) (oracle u : Address) (cfg : RecencyDecayConfig)
    (rs : List IdentityVcRecord) (acc : VcTally) (env : Env) (s : Oracle)
    → Ensures
        (λ tally t.
          (t ≡ s)
          × (tally.vc_count ≡ acc.vc_count + vouched client oracle u rs)
          × (tally.vc_points ≤ acc.vc_points + full_points client s oracle u rs))
        (tally_identity client oracle u cfg rs acc env s)
unfolding tally_identity
tally_identity_sums client oracle u cfg [] acc env s = ground arith
tally_identity_sums client oracle u cfg (r ∷ rs) acc env s =
    Ensures-bind _ (tally_one client oracle u cfg r acc) (tally_identity client oracle u cfg rs) env
      s
      (Ensures-map
        (λ tally t h. rw h.0 (
          Ensures-map (λ tally' t' k. (k.0, omega arith, omega arith))
            (tally_identity client oracle u cfg rs tally env s)
            (tally_identity_sums client oracle u cfg rs tally env s)))
        (tally_one client oracle u cfg r acc env s) (tally_one_lem client oracle u cfg r acc env s))

-- The identity oracle answers what the loop asks about the records.
abbrev pub answers : IdentityClient → Address → Address → List IdentityVcRecord → Bool
answers client oracle u [] = true
answers client oracle u (r ∷ rs) =
    is_some (client.verify_vc oracle u r.vc_hash)
    && (not (is_vouched client oracle u r)
        || is_some (client.get_vc_credential_type oracle u r.vc_hash))
    && answers client oracle u rs

tally_one-IsOk :
    (client : IdentityClient) (oracle u : Address) (cfg : RecencyDecayConfig) (r : IdentityVcRecord)
    (acc : VcTally) (env : Env) (s : Oracle)
    → answers client oracle u (r ∷ []) ≡ true
    → acc.vc_count + (if is_vouched client oracle u r then 1 else 0) ≤ u32_max
    → IsOk (tally_one client oracle u cfg r acc env s)
unfolding tally_one
tally_one-IsOk client oracle u cfg r acc env s h room = ground arith

tally_identity-IsOk :
    (client : IdentityClient) (oracle u : Address) (cfg : RecencyDecayConfig)
    (rs : List IdentityVcRecord) (acc : VcTally) (env : Env) (s : Oracle)
    → answers client oracle u rs ≡ true
    → acc.vc_count + vouched client oracle u rs ≤ u32_max
    → IsOk (tally_identity client oracle u cfg rs acc env s)
unfolding tally_identity
tally_identity-IsOk client oracle u cfg [] acc env s h room = tt
tally_identity-IsOk client oracle u cfg (r ∷ rs) acc env s h room =
    IsOk-bind (tally_one client oracle u cfg r acc) (tally_identity client oracle u cfg rs) env s
      (tally_one-IsOk client oracle u cfg r acc env s (ground arith) (omega arith))
      (Ensures-map
        (λ tally t e.
          tally_identity-IsOk client oracle u cfg rs tally env t (ground arith) (omega arith))
        (tally_one client oracle u cfg r acc env s) (tally_one_lem client oracle u cfg r acc env s))

-- If the identity oracle answers what is asked about the records, and the count of those that it
-- vouches for fits a `u32`, the loop over them succeeds and writes nothing; it counts exactly
-- those, and gives them at most their points without decay.
pub tally_identity_lem :
    (client : IdentityClient) (oracle u : Address) (cfg : RecencyDecayConfig)
    (rs : List IdentityVcRecord) (env : Env) (s : Oracle)
    → answers client oracle u rs ≡ true
    → vouched client oracle u rs ≤ u32_max
    → (tally : VcTally) × (t : Oracle) × (tally_identity client oracle u cfg rs no_tally env s
        ≡ ok tally t)
      × ((t ≡ s)
          × (tally.vc_count ≡ vouched client oracle u rs)
          × (tally.vc_points ≤ full_points client s oracle u rs))
tally_identity_lem client oracle u cfg rs env s h room =
    IsOk-result
      (λ tally t.
        (t ≡ s)
        × (tally.vc_count ≡ vouched client oracle u rs)
        × (tally.vc_points ≤ full_points client s oracle u rs))
      (tally_identity client oracle u cfg rs no_tally env s)
      (tally_identity-IsOk client oracle u cfg rs no_tally env s h (omega arith))
      (Ensures-map (λ tally t k. (k.0, omega (arith, k), omega (arith, k)))
        (tally_identity client oracle u cfg rs no_tally env s)
        (tally_identity_sums client oracle u cfg rs no_tally env s))
