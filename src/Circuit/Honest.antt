-- ===== src/Circuit/Honest.antt =====
-- The assignments that the reference score (zk/circuit/src/score.rs) yields, and whether they
-- satisfy the circuit (zk/circuit/src/score_circuit.rs).
use native.Mathlib.Nat.{div-add-mod', div-div-eq-div-mul, mod-lt, mul-div-mul_right}
use stellar_did_credit.Base.{
  Bool, arith, ap, false, leb, ltb, min, nat_eq, negsuc, pos, pos_part, sub_ℕ, suc, true, u128_max,
  u32_max, u64_max, zero, ℕ, ℤ, ◌&&◌, ◌*◌, ◌%◌, ◌+◌, ◌==◌, ◌-◌, ◌/◌, ◌<◌, ◌≡◌, ◌≤◌, ◌∙◌, refl, sym,
}
use stellar_did_credit.CreditOracle.Scoring.{
  composite_score, repayment_rate_score, repayment_score, transaction_score, volume_units,
}
use stellar_did_credit.CreditOracle.Scoring.Bounds.{
  IsWeighting, compute_score_pure_exact, repayment_rate_score-le,
}
use stellar_did_credit.Circuit.Field.{PrimeField}
use stellar_did_credit.Circuit.Inputs.{ScoreWitness}
use stellar_did_credit.Circuit.Constraints.{as_u64}
use stellar_did_credit.Circuit.Conditions.{IsTyped, capped, divides, numbers_hold}
use stellar_did_credit.Circuit.Score.{compute_score_pure}
use stellar_did_credit.Circuit.Reference.{compute_score_pure_agrees}

-- The intermediate values and the quotients are those of the reference score.
pub record IsHonest (w : ScoreWitness) : Type 0 where
  pub vc_score : w.vc_score ≡ min w.vc_points 100
  pub q_volume : w.q_volume ≡ volume_units w.tx_volume_30d
  pub volume_score : w.volume_score ≡ min (volume_units w.tx_volume_30d) 80
  pub q_cp : w.q_cp ≡ w.avg_counterparties / 5
  pub counterparty_bonus : w.counterparty_bonus ≡ min (w.avg_counterparties / 5) 20
  pub tx_score : w.tx_score ≡ transaction_score w.tx_volume_30d w.avg_counterparties
  pub repayment_rate_score :
      w.repayment_rate_score ≡ repayment_rate_score w.on_time_count w.total_count
  pub q_rv : w.q_rv ≡ volume_units w.total_repaid
  pub repayment_volume_score : w.repayment_volume_score ≡ min (volume_units w.total_repaid) 100
  pub repay_score : w.repay_score ≡ repayment_score w.on_time_count w.total_count w.total_repaid
  pub composite :
      w.composite
      ≡ composite_score w.vc_score w.tx_score w.repay_score w.vc_weight w.tx_weight
          w.repayment_weight
  pub score :
      w.score
      ≡ compute_score_pure w.vc_points w.tx_volume_30d w.avg_counterparties w.on_time_count
          w.total_count w.total_repaid w.vc_weight w.tx_weight w.repayment_weight

capped-min : (q bound cap : ℕ) → cap < bound → capped (min q cap) bound q cap ≡ true
capped-min q bound cap h = ground arith

sub_from_zero : (k : ℕ) → pos_part (sub_ℕ 0 k) ≡ 0
sub_from_zero k = ground arith

divides_units :
    (x : ℤ) → pos_part x ≤ u64_max → divides (as_u64 x) (volume_units x) 100000000 134217728 ≡ true
unfolding volume_units
divides_units (pos n) h = ground arith
divides_units (negsuc n) h = rw (sub_from_zero (suc n / 100000000)) refl

rate_check :
    (rate paid total : ℕ)
    → rate ≡ paid / total
    → rate ≤ 100
    → 0 < total
    → (ltb rate 128 && (leb (rate * total) paid && leb (paid - rate * total) total)) ≡ true
rate_check rate paid total e small h =
    let whole = div-add-mod' paid total in
    let rest = mod-lt paid h in
    let product : rate * total ≡ paid / total * total = ap (λ t. t * total) e in
    ground (arith, product, whole, rest)

rate_lem :
    (on_time total : ℕ)
    → on_time ≤ total
    → total ≤ u32_max
    → let rate = repayment_rate_score on_time total in
      (ltb rate 128
        && (leb (rate * total) (on_time * 100) && leb (on_time * 100 - rate * total) total))
      ≡ true
unfolding repayment_rate_score
rate_lem on_time zero h k = ground arith
rate_lem on_time (suc n) h k =
    let small = repayment_rate_score-le on_time (suc n) h in
    let value : repayment_rate_score on_time (suc n)
        ≡ min (on_time * 10000) u128_max / suc n / 100 =
      ground arith in
    let exact : min (on_time * 10000) u128_max ≡ on_time * 100 * 100 = omega arith in
    let floor : repayment_rate_score on_time (suc n) ≡ on_time * 100 / suc n =
      value
      ∙ ap (λ t. t / suc n / 100) exact
      ∙ div-div-eq-div-mul (on_time * 100 * 100) (suc n) 100
      ∙ mul-div-mul_right (on_time * 100) (suc n) (omega arith) in
    rate_check _ (on_time * 100) (suc n) floor small (omega arith)

units_lem :
    (x : ℤ) (cap : ℕ)
    → pos_part x ≤ u64_max
    → cap < 128
    → (divides (as_u64 x) (volume_units x) 100000000 134217728
        && capped (min (volume_units x) cap) 128 (volume_units x) cap)
      ≡ true
units_lem x cap h k = rw (divides_units x h) (capped-min (volume_units x) 128 cap k)

bonus_lem : (n : ℕ) → (divides n (n / 5) 5 8 && capped (min (n / 5) 20) 32 (n / 5) 20) ≡ true
bonus_lem n = ground arith

composite_check :
    (sum composite : ℕ)
    → composite ≡ sum / 100
    → composite ≤ 100
    → (divides sum composite 100 128 && ltb composite 128) ≡ true
composite_check sum composite e h = ground (arith, e)

middle :
    (a b : Bool)
    → (a && true && true && true && true && true && true && b && true && true) ≡ (a && b)
middle true true = refl
middle true false = refl
middle false b = refl

parity :
    (rate volume repay : ℕ)
    → repay ≡ (rate + volume) / 2
    → (repay * 2 == rate + volume) ≡ ((rate + volume) % 2 == 0)
parity rate volume repay e = ground (arith, e)

scaled_lem :
    (composite score : ℕ)
    → composite ≤ 100
    → score ≡ 300 + composite * 550 / 100
    → (divides (composite * 550 + 30000) score 100 128 && ltb score 1024) ≡ true
scaled_lem composite score h e = ground (arith, e)

-- A typed assignment with the values of the reference score, for weights that the oracle accepts and
-- no more on-time payments than payments.
pub record IsHonestTyped (f : PrimeField) (w : ScoreWitness) : Type 0 where
  pub typed : IsTyped f w
  pub honest : IsHonest w
  pub on_time : w.on_time_count ≤ w.total_count
  pub weighting : IsWeighting w.vc_weight w.tx_weight w.repayment_weight
  pub volume : pos_part w.tx_volume_30d ≤ u64_max
  pub repaid : pos_part w.total_repaid ≤ u64_max
  pub last_updated : w.last_updated ≤ u64_max

composite_lem :
    (f : PrimeField) (w : ScoreWitness)
    → IsHonestTyped f w
    → (w.composite ≤ 100) × (w.score ≡ 300 + w.composite * 550 / 100)
composite_lem f w k =
    let h = k.honest in
    let exact =
      compute_score_pure_exact w.vc_points w.tx_volume_30d w.avg_counterparties w.on_time_count
        w.total_count w.total_repaid w.vc_weight w.tx_weight w.repayment_weight k.on_time
        k.weighting in
    let same : w.composite
        ≡ composite_score (min w.vc_points 100)
            (transaction_score w.tx_volume_30d w.avg_counterparties)
            (repayment_score w.on_time_count w.total_count w.total_repaid) w.vc_weight w.tx_weight
            w.repayment_weight =
      rw (h.composite, h.vc_score, h.tx_score, h.repay_score) refl in
    let score =
      h.score
      ∙ compute_score_pure_agrees w.vc_points w.tx_volume_30d w.avg_counterparties w.on_time_count
          w.total_count w.total_repaid w.vc_weight w.tx_weight w.repayment_weight
      ∙ exact.0 in
    (rw same exact.1, score ∙ ap (λ c. 300 + c * 550 / 100) (sym same))

pub honest_numbers :
    (f : PrimeField) (threshold : ℕ) (w : ScoreWitness)
    → IsHonestTyped f w
    → numbers_hold threshold w
      ≡ (ltb threshold w.score && (w.repayment_rate_score + w.repayment_volume_score) % 2 == 0)
honest_numbers f threshold w k =
    let h = k.honest in
    let composite = composite_lem f w k in
    let vc : capped w.vc_score 128 w.vc_points 100 ≡ true =
      rw h.vc_score (capped-min w.vc_points 128 100 (omega arith)) in
    let volume : (divides (as_u64 w.tx_volume_30d) w.q_volume 100000000 134217728
          && capped w.volume_score 128 w.q_volume 80)
        ≡ true =
      rw (h.q_volume, h.volume_score) (units_lem w.tx_volume_30d 80 k.volume (omega arith)) in
    let bonus : (divides w.avg_counterparties w.q_cp 5 8
          && capped w.counterparty_bonus 32 w.q_cp 20)
        ≡ true =
      rw (h.q_cp, h.counterparty_bonus) (bonus_lem w.avg_counterparties) in
    let sum : transaction_score w.tx_volume_30d w.avg_counterparties
        ≡ min (w.volume_score + w.counterparty_bonus) 100 =
      rw (h.volume_score, h.counterparty_bonus) (unfold transaction_score in refl) in
    let tx : capped w.tx_score 128 (w.volume_score + w.counterparty_bonus) 100 ≡ true =
      rw (h.tx_score ∙ sum)
        (capped-min (w.volume_score + w.counterparty_bonus) 128 100 (omega arith)) in
    let rate : (ltb w.repayment_rate_score 128
          && (leb (w.repayment_rate_score * w.total_count) (w.on_time_count * 100)
              && leb (w.on_time_count * 100 - w.repayment_rate_score * w.total_count)
                  w.total_count))
        ≡ true =
      rw h.repayment_rate_score
        (rate_lem w.on_time_count w.total_count k.on_time k.typed.total_count) in
    let repaid : (divides (as_u64 w.total_repaid) w.q_rv 100000000 134217728
          && capped w.repayment_volume_score 128 w.q_rv 100)
        ≡ true =
      rw (h.q_rv, h.repayment_volume_score) (units_lem w.total_repaid 100 k.repaid (omega arith)) in
    let half : repayment_score w.on_time_count w.total_count w.total_repaid
        ≡ (w.repayment_rate_score + w.repayment_volume_score) / 2 =
      rw (h.repayment_rate_score, h.repayment_volume_score) (unfold repayment_score in refl) in
    let halved =
      parity w.repayment_rate_score w.repayment_volume_score w.repay_score (h.repay_score ∙ half) in
    let divided =
      composite_check
        (w.vc_score * w.vc_weight + w.tx_score * w.tx_weight + w.repay_score * w.repayment_weight)
        w.composite (unfold composite_score in h.composite) composite.0 in
    let scaled = scaled_lem w.composite w.score composite.0 composite.1 in
    rw (vc, volume, bonus, tx, rate, repaid, halved, divided, scaled)
      (middle (ltb threshold w.score)
        ((w.repayment_rate_score + w.repayment_volume_score) % 2 == 0))
