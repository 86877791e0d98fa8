-- ===== src/Orchestrator/Released.antt =====
-- What the way from the council's review to the owner's review guarantees.
use autonomous_dev_platform.Base.{
  Bool, true, false, not, ◌≡◌, refl, sym, ap, ◌∙◌, Option, none, some, if◌then◌else◌, Bool-cases,
  inl, inr,
}
use autonomous_dev_platform.States.{
  ProjectState, ready_for_owner_review, same_state, is_legal_transition,
}
use autonomous_dev_platform.States.Graph.{same_state→≡}
use autonomous_dev_platform.Errors.{Thrown}
use autonomous_dev_platform.Project.{Project}
use autonomous_dev_platform.Orchestrator.Transition.{
  ok, raised, moved, transition, transition_legal, transition_illegal,
}
use autonomous_dev_platform.Orchestrator.World.{World, Answer, answered, refused}
use autonomous_dev_platform.Orchestrator.Release.{
  owner_gate, notified, prepared, finish_delivery, leveled, gate_error,
}

pub ok_inj : (p q : Project) → ok p ≡ ok q → p ≡ q
ok_inj p q h = cc

pub raised≢ok : (p q : Project) (e : Thrown) → raised p e ≡ ok q → ⊥
raised≢ok p q e h = cc

pub transition_inv :
    (saved p q : Project) (to : ProjectState)
    → transition saved p to ≡ ok q
    → (is_legal_transition p.state to ≡ true) × (q ≡ moved p to)
transition_inv saved p q to h = elim (Bool-cases (is_legal_transition p.state to)) [
  | inl l ↦ (l, ok_inj _ _ (sym h ∙ transition_legal saved p to l))
  | inr l ↦ absurd (raised≢ok _ _ _ (sym (transition_illegal saved p to l) ∙ h))
]

-- The step into the owner's review, by its two branches.
entered :
    (saved r q : Project) (b : Bool)
    → same_state r.state ready_for_owner_review ≡ b
    → (if not b then transition saved r ready_for_owner_review else ok r) ≡ ok q
    → (q.state ≡ ready_for_owner_review)
      × (q.deliveries ≡ r.deliveries)
      × (q.verification_level ≡ r.verification_level)
entered saved r q true e h =
    let same : q ≡ r = ok_inj q r (sym h) in
    (
      ap (λ (x : Project). x.state) same ∙ same_state→≡ r.state ready_for_owner_review e,
      ap (λ (x : Project). x.deliveries) same,
      ap (λ (x : Project). x.verification_level) same,
    )
entered saved r q false e h =
    let (l, same) = transition_inv saved r q ready_for_owner_review h in
    (
      ap (λ (x : Project). x.state) same,
      ap (λ (x : Project). x.deliveries) same,
      ap (λ (x : Project). x.verification_level) same,
    )

notified_inv :
    (saved r q : Project) (o : Option Thrown)
    → notified saved r o ≡ ok q
    → (q.state ≡ ready_for_owner_review)
      × (q.deliveries ≡ r.deliveries)
      × (q.verification_level ≡ r.verification_level)
unfolding notified
notified_inv saved r q none h = entered saved r q (same_state r.state ready_for_owner_review) refl h
notified_inv saved r q (some e) h = absurd (raised≢ok saved q e h)

gated_inv :
    (saved r q : Project) (o : Option Thrown) (error : Thrown) (b : Bool)
    → (if not b then raised saved error else notified saved r o) ≡ ok q
    → (b ≡ true) × (notified saved r o ≡ ok q)
gated_inv saved r q o error true h = (refl, h)
gated_inv saved r q o error false h = absurd (raised≢ok saved q error h)

prepared_inv :
    (w : World) (saved q : Project) (a : Answer Project)
    → prepared w saved a ≡ ok q
    → (r : Project) × (a ≡ answered r)
      × ((owner_gate w r).ok ≡ true)
      × (notified saved (leveled (owner_gate w r) r) (w.notify (leveled (owner_gate w r) r)) ≡ ok q)
unfolding prepared
prepared_inv w saved q (refused e) h = absurd (raised≢ok saved q e h)
prepared_inv w saved q (answered r) h =
    let (passed, rest) =
      gated_inv saved (leveled (owner_gate w r) r) q (w.notify (leveled (owner_gate w r) r))
        (gate_error "DELIVERY_PREPARATION") (owner_gate w r).ok h in
    (r, refl, passed, rest)

module _ (w : World) (saved p : Project) where
  -- A project whose delivery is finished without an error passed the owner gate, with the delivery
  -- that was prepared for it, and is in READY_FOR_OWNER_REVIEW.
  pub finish_delivery_gated :
      (q : Project)
      → finish_delivery w saved p ≡ ok q
      → (r : Project) × (w.prepare_delivery p ≡ answered r)
        × ((owner_gate w r).ok ≡ true)
        × (q.state ≡ ready_for_owner_review)
        × (q.deliveries ≡ r.deliveries)
        × (q.verification_level ≡ (owner_gate w r).verification_level)
  unfolding finish_delivery
  finish_delivery_gated q h =
      let (r, e, passed, rest) = prepared_inv w saved q (w.prepare_delivery p) h in
      let (state, deliveries, level) =
        notified_inv saved (leveled (owner_gate w r) r) q (w.notify (leveled (owner_gate w r) r))
          rest in
      (r, e, passed, state, deliveries, level)
