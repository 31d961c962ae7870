-- ===== src/Governance/Weighing.antt =====
-- The total of the registered weight against the register of voters.
use stellar_did_credit.Governance.Steps.{Reach, here, invocation, next, run}
use stellar_did_credit.Governance.Outcomes.{
  Effect, cancels, casts, cleans, creates, executes, run-Effect, settles, starts, weighs,
}
use stellar_did_credit.Base.{
  Bool-cases, List, Map, Option-cases, [], ap, arith, contains, false, inl, inr, is_distinct,
  is_some, leb_ℤ, nat_beq_iff, nat_eq, neg_part, none, pos, pos_of_parts, pos_part, refl, some,
  true, unwrap_or, ℕ, ℤ, ◌+◌, ◌==◌, ◌∷◌, ◌≡◌,
}
use stellar_did_credit.Host.{Address, Env, ensured}
use stellar_did_credit.Governance.State.{Governance, Peer, deployed}
use stellar_did_credit.Governance.Effects.{Weighs, roll}
use stellar_did_credit.Governance.Admin.{get_total_registered_weight}

abbrev pub weight_in : Map Address ℤ → Address → ℕ
weight_in m v = pos_part (unwrap_or (m v) (pos 0))

abbrev pub sum_weights : Map Address ℤ → List Address → ℕ
sum_weights m [] = 0
sum_weights m (v ∷ vs) = weight_in m v + sum_weights m vs

-- Two registers that differ at most at one voter.
module _ (v : Address) (m m' : Map Address ℤ)
    (same : (u : Address) → (u == v) ≡ false → m' u ≡ m u) where
  sum_weights-absent :
      (vs : List Address) → contains v vs ≡ false → sum_weights m' vs ≡ sum_weights m vs
  sum_weights-absent [] a = refl
  sum_weights-absent (u ∷ us) a = ground (arith, same u, sum_weights-absent us)

  sum_weights-present :
      (vs : List Address)
      → is_distinct vs ≡ true
      → contains v vs ≡ true
      → sum_weights m' vs + weight_in m v ≡ sum_weights m vs + weight_in m' v
  sum_weights-present [] d c = cc
  sum_weights-present (u ∷ us) d c =
      ground (arith, same u, nat_beq_iff u v, sum_weights-absent us, sum_weights-present us)

-- Every voter of the register is in the list, once.
abbrev pub Covers : List Address → Map Address ℤ → Type 0
Covers vs m =
    (is_distinct vs ≡ true) × ((v : Address) → is_some (m v) ≡ true → contains v vs ≡ true)

-- Registered weights are positive, and the stored total is their sum.
pub record IsWeighed (s : Governance) : Type 0 where
  pub positive : (v : Address) (w : ℤ) → s.voter_weight v ≡ some w → leb_ℤ w (pos 0) ≡ false
  pub summed :
      (vs : List Address)
      → Covers vs s.voter_weight
      → get_total_registered_weight s ≡ pos (sum_weights s.voter_weight vs)

IsWeighed-same : (s t : Governance) → roll t ≡ roll s → IsWeighed s → IsWeighed t
unfolding get_total_registered_weight
IsWeighed-same s t e h = record {
  positive = λ v w r. h.positive v w (ground arith);
  summed = λ vs c. ground (
    arith,
    h.summed vs (c.0, λ v r. c.1 v (ground arith)),
    ap (λ m. sum_weights m vs) (ap (λ r. r.0) e),
  );
}

module _ (env : Env) (v : Address) (w : ℤ) (s t : Governance) (c : Weighs env v w s t)
    (h : IsWeighed s) where
  same_elsewhere : (u : Address) → (u == v) ≡ false → t.voter_weight u ≡ s.voter_weight u
  same_elsewhere u e = ground arith

  weighs-positive : (u : Address) (n : ℤ) → t.voter_weight u ≡ some n → leb_ℤ n (pos 0) ≡ false
  weighs-positive u n e = ground (arith, h.positive u n)

  old_nonneg : neg_part (unwrap_or (s.voter_weight v) (pos 0)) ≡ 0
  old_nonneg = elim (Option-cases (s.voter_weight v)) [
    | inl e ↦ rw e refl
    | inr (n, e) ↦ rw e (ground (arith, h.positive v n e))
  ]

  new_weight : weight_in t.voter_weight v ≡ pos_part w
  new_weight = ground (arith, nat_beq_iff v v)

  registered_before :
      (vs : List Address)
      → ((u : Address) → is_some (t.voter_weight u) ≡ true → contains u vs ≡ true)
      → (u : Address) → (u == v) ≡ false
      → is_some (s.voter_weight u) ≡ true
      → contains u vs ≡ true
  registered_before vs k u e r = ground (arith, same_elsewhere u e, k u)

  weighs-summed :
      (vs : List Address)
      → Covers vs t.voter_weight
      → get_total_registered_weight t ≡ pos (sum_weights t.voter_weight vs)
  unfolding get_total_registered_weight
  weighs-summed vs k = elim (Bool-cases (contains v vs)) [
    | inl there ↦
        let before = h.summed vs (
          k.0,
          λ u r. elim (Bool-cases (u == v)) [
            | inl e ↦ ground (arith, nat_beq_iff u v)
            | inr e ↦ registered_before vs k.1 u e r
          ],
        ) in
        ground (
          arith,
          before,
          old_nonneg,
          new_weight,
          sum_weights-present v s.voter_weight t.voter_weight same_elsewhere vs k.0 there,
          pos_of_parts c.2 (sum_weights t.voter_weight vs),
        )
    | inr gone ↦
        let before = h.summed (v ∷ vs) (
          ground arith,
          λ u r. elim (Bool-cases (u == v)) [
            | inl e ↦ ground (arith, nat_beq_iff u v, nat_beq_iff v u)
            | inr e ↦ ground (arith, registered_before vs k.1 u e r)
          ],
        ) in
        ground (
          arith,
          before,
          old_nonneg,
          k.1 v,
          nat_beq_iff v v,
          sum_weights-absent v s.voter_weight t.voter_weight same_elsewhere vs gone,
          pos_of_parts c.2 (sum_weights t.voter_weight vs),
        )
  ]

  weighs-IsWeighed : IsWeighed t
  weighs-IsWeighed = record { positive = weighs-positive; summed = weighs-summed }

pub Effect-IsWeighed :
    (peer : Peer) (env : Env) (s t : Governance) → Effect peer env s t → IsWeighed s → IsWeighed t
Effect-IsWeighed peer env s t (weighs v w c) h = weighs-IsWeighed env v w s t c h
Effect-IsWeighed peer env s t (starts c) h = IsWeighed-same s t (ground arith) h
Effect-IsWeighed peer env s t (settles c) h = IsWeighed-same s t c.1 h
Effect-IsWeighed peer env s t (creates a w period delay id c) h =
    IsWeighed-same s t (ground arith) h
Effect-IsWeighed peer env s t (casts v id for w c) h = IsWeighed-same s t (ground arith) h
Effect-IsWeighed peer env s t (executes id c) h = IsWeighed-same s t (ground arith) h
Effect-IsWeighed peer env s t (cancels a id c) h = IsWeighed-same s t (ground arith) h
Effect-IsWeighed peer env s t (cleans id vs c) h = IsWeighed-same s t (ground arith) h

Reach-IsWeighed : {s t : Governance} → Reach s t → IsWeighed s → IsWeighed t
Reach-IsWeighed here h = h
Reach-IsWeighed {t = t} (next {t = u} r (invocation peer req env e)) h =
    Effect-IsWeighed peer env u t (ensured _ (run peer req env u) (run-Effect peer req env u) e)
      (Reach-IsWeighed r h)

sum_weights-deployed : (vs : List Address) → sum_weights (λ _. none) vs ≡ 0
sum_weights-deployed [] = refl
sum_weights-deployed (v ∷ vs) = omega (arith, sum_weights-deployed vs)

deployed-IsWeighed : IsWeighed deployed
unfolding get_total_registered_weight
deployed-IsWeighed = record {
  positive = λ v w e. ground arith;
  summed = λ vs c. ground (arith, sum_weights-deployed vs);
}

-- In every state that a fresh contract can reach, every registered weight is positive, and
-- `get_total_registered_weight` is the sum of the registered weights, over any list that holds
-- every registered voter and repeats nobody.
pub Reach-deployed-IsWeighed : {t : Governance} → Reach deployed t → IsWeighed t
Reach-deployed-IsWeighed r = Reach-IsWeighed r deployed-IsWeighed
