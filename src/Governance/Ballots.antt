-- ===== src/Governance/Ballots.antt =====
-- The votes of a proposal, as the log of the governance contract tells them.
use stellar_did_credit.Base.{
  Bool, List, [], false, if◌then◌else◌, inl, inr, nat_eq, not, pos_part, refl, ℕ, ◌&&◌, ◌+◌, ◌==◌,
  ◌∷◌, ◌≡◌,
}
use stellar_did_credit.Host.{Address}
use stellar_did_credit.Governance.State.{Event, Governance}
use stellar_did_credit.Governance.Effects.{Quiet, is_vote}

-- The weight of the logged votes for a proposal, or against it.
abbrev pub cast_for : ℕ → Bool → List Event → ℕ
cast_for id side [] = 0
cast_for id side (Event.voted j v for w ∷ es) =
    (if j == id && (if for then side else not side) then pos_part w else 0) + cast_for id side es
cast_for id side (Event.initialized a o ∷ es) = cast_for id side es
cast_for id side (e ∷ es) = cast_for id side es

-- The weight of the logged votes of one voter on a proposal.
abbrev pub cast_by : ℕ → Address → List Event → ℕ
cast_by id u [] = 0
cast_by id u (Event.voted j v for w ∷ es) =
    (if j == id && v == u then pos_part w else 0) + cast_by id u es
cast_by id u (Event.initialized a o ∷ es) = cast_by id u es
cast_by id u (e ∷ es) = cast_by id u es

module _ (id : ℕ) (e : Event) (es : List Event) (quiet : is_vote e ≡ false) where
  cast_for-cons : (side : Bool) → cast_for id side (e ∷ es) ≡ cast_for id side es
  cast_for-cons side = elim_event e quiet
    where
      elim_event : (e : Event) → is_vote e ≡ false → cast_for id side (e ∷ es) ≡ cast_for id side es
      elim_event (Event.voted j v for w) q = cc
      elim_event (Event.initialized a o) q = refl
      elim_event e q = refl

  cast_by-cons : (u : Address) → cast_by id u (e ∷ es) ≡ cast_by id u es
  cast_by-cons u = elim_event e quiet
    where
      elim_event : (e : Event) → is_vote e ≡ false → cast_by id u (e ∷ es) ≡ cast_by id u es
      elim_event (Event.voted j v for w) q = cc
      elim_event (Event.initialized a o) q = refl
      elim_event e q = refl

-- Two logs tell the same votes.
abbrev pub SameVotes : Governance → Governance → Type 0
SameVotes s t =
    (id : ℕ)
    → ((side : Bool) → cast_for id side t.events ≡ cast_for id side s.events)
      × ((u : Address) → cast_by id u t.events ≡ cast_by id u s.events)

pub Quiet-SameVotes : (s t : Governance) → Quiet s t → SameVotes s t
Quiet-SameVotes s t (inl h) id = (λ side. rw h refl, λ u. rw h refl)
Quiet-SameVotes s t (inr (e, h, q)) id =
    (λ side. rw h (cast_for-cons id e s.events q side), λ u. rw h (cast_by-cons id e s.events q u))
