-- ===== src/Orchestrator/Approval.antt =====
-- What an owner's decision does to a project.
use autonomous_dev_platform.Base.{
  Bool, true, false, ◌&&◌, ◌≡◌, refl, arith, sym, ap, ◌∙◌, subst, Option, none, some, String,
  Bool-cases, inl, inr, [], ◌∷◌, ◌++◌, ◌==◌, map, if◌then◌else◌, trim, or_text,
}
use autonomous_dev_platform.States.{
  ProjectState, ready_for_owner_review, owner_approved, owner_changes_requested, done,
  council_discovery, same_state, is_legal_transition,
}
use autonomous_dev_platform.Errors.{Thrown}
use autonomous_dev_platform.Project.{Project, OwnerReview, Completion}
use autonomous_dev_platform.Project.Runs.{Delivery}
use autonomous_dev_platform.Gate.MockPolicy.{current_delivery}
use autonomous_dev_platform.Delivery.Decisions.{
  OwnerDecision, approved, changes_requested, Decided, decided, record_owner_decision,
  apply_decision, review_of, feedback_text,
}
use autonomous_dev_platform.Delivery.Decisions.Once.{
  may_decide, decision_outcome, decision_accepted, rejection_inv,
}
use autonomous_dev_platform.Orchestrator.Transition.{
  Result, ok, raised, next, moved, transition, transition_legal,
}
use autonomous_dev_platform.Orchestrator.Owner.{
  approve, request_changes, owner_decides, owner_if, after_decision, not_reviewable,
}

-- The state of a project after a decision, and the transitions on the way.
decided_moves :
    (p q : Project) (review : OwnerReview) (first second : ProjectState)
    → is_legal_transition q.state first ≡ true
    → is_legal_transition first second ≡ true
    → after_decision p (decided q review) first second ≡ ok (moved (moved q first) second)
unfolding after_decision
decided_moves p q review first second l m =
    ap (λ (r : Result). next r (λ x. transition x x second)) (transition_legal p q first l)
    ∙ transition_legal (moved q first) (moved q first) second m

and_false : (a b : Bool) → a ≡ true → (a && b) ≡ false → b ≡ false
and_false a b h k = ground arith

to_approved : is_legal_transition ready_for_owner_review owner_approved ≡ true
unfolding is_legal_transition
to_approved = refl

to_done : is_legal_transition owner_approved done ≡ true
unfolding is_legal_transition
to_done = refl

to_changes : is_legal_transition ready_for_owner_review owner_changes_requested ≡ true
unfolding is_legal_transition
to_changes = refl

to_discovery : is_legal_transition owner_changes_requested council_discovery ≡ true
unfolding is_legal_transition
to_discovery = refl

keeps_state :
    (p : Project) (d : Delivery) (decision : OwnerDecision) (r : OwnerReview)
    → (apply_decision p d decision r).state ≡ p.state
unfolding apply_decision
keeps_state p d approved r = refl
keeps_state p d changes_requested r = refl

ready_moves :
    (first : ProjectState) (p : Project) (d : Delivery) (decision : OwnerDecision) (r : OwnerReview)
    → p.state ≡ ready_for_owner_review
    → is_legal_transition ready_for_owner_review first ≡ true
    → is_legal_transition (apply_decision p d decision r).state first ≡ true
ready_moves first p d decision r h l =
    subst (λ (s : ProjectState). is_legal_transition s first ≡ true)
      (sym (keeps_state p d decision r ∙ h)) l

module _ (sha256 : String → String) (id : String) (p : Project) (decision : OwnerDecision)
    (feedback : Option String) (first second : ProjectState) where
  decides_accepted :
      (d : Delivery)
      → p.state ≡ ready_for_owner_review
      → current_delivery p ≡ some d
      → may_decide sha256 p (some d) decision feedback ≡ true
      → is_legal_transition ready_for_owner_review first ≡ true
      → is_legal_transition first second ≡ true
      → owner_decides sha256 id p decision feedback first second
        ≡ ok (
            moved
              (moved (apply_decision p d decision (review_of id d decision feedback)) first)
              second)
  unfolding owner_decides owner_if
  decides_accepted d s e m l k =
      let review = review_of id d decision feedback in
      ap (λ (b : Bool). owner_if sha256 b id p decision feedback first second)
        (ap (λ (x : ProjectState). same_state x ready_for_owner_review) s)
      ∙ ap
          (λ (x : Option Delivery).
            after_decision p (record_owner_decision sha256 id p x decision feedback) first second)
          e
      ∙ ap (λ (x : Decided). after_decision p x first second)
          (decision_outcome sha256 id p d decision feedback m)
      ∙ decided_moves p (apply_decision p d decision review) review first second
          (ready_moves first p d decision review s l) k

  decides_refused :
      (same_state p.state ready_for_owner_review
          && may_decide sha256 p (current_delivery p) decision feedback)
        ≡ false
      → (error : Thrown) × (owner_decides sha256 id p decision feedback first second
          ≡ raised p error)
  unfolding owner_decides owner_if after_decision
  decides_refused h = elim (Bool-cases (same_state p.state ready_for_owner_review)) [
    | inl s ↦
        let (q, error, e) =
          rejection_inv (record_owner_decision sha256 id p (current_delivery p) decision feedback) (
            decision_accepted sha256 id p decision feedback (current_delivery p)
            ∙ and_false _ _ s h) in
        (
          error,
          ap (λ (b : Bool). owner_if sha256 b id p decision feedback first second) s
              ∙ ap (λ (x : Decided). after_decision p x first second) e,
        )
    | inr s ↦ (
      not_reviewable p,
      ap (λ (b : Bool). owner_if sha256 b id p decision feedback first second) s,
    )
  ]

module _ (sha256 : String → String) (id : String) (p : Project) where
  -- An approval of the current delivery in READY_FOR_OWNER_REVIEW that meets the conditions of a
  -- decision takes the project by way of OWNER_APPROVED to DONE: the delivery is approved and current,
  -- the other deliveries are as they were, the approval is the last of the owner's reviews, and the
  -- completion names the delivery's version, its checkpoint and the review.
  pub approve_completes :
      (d : Delivery)
      → p.state ≡ ready_for_owner_review
      → current_delivery p ≡ some d
      → may_decide sha256 p (some d) approved none ≡ true
      → (q : Project) × (c : Completion) × (approve sha256 id p ≡ ok q)
        × (q.state ≡ done)
        × (q.history
            ≡ (p.history ++ record { from = p.state; to = owner_approved } ∷ [])
              ++ record { from = owner_approved; to = done } ∷ [])
        × (q.deliveries
            ≡ map
                (λ x. if x.id == d.id then record x { status = "APPROVED"; current = true } else x)
                p.deliveries)
        × (q.owner_reviews
            ≡ p.owner_reviews
              ++ record { id = id; delivery_id = d.id; decision = "APPROVED"; feedback = none }
                ∷ [])
        × (q.completion ≡ some c)
        × (c.delivery_version ≡ d.version)
        × (c.final_checkpoint ≡ d.checkpoint_sha)
        × (c.owner_review_id ≡ id)
  unfolding approve apply_decision review_of feedback_text
  approve_completes d s e m = (
    _,
    _,
    decides_accepted sha256 id p approved none owner_approved done d s e m to_approved to_done,
    refl,
    refl,
    refl,
    refl,
    refl,
    refl,
    refl,
    refl,
  )

  -- A request for changes that meets the conditions of a decision takes the project by way of
  -- OWNER_CHANGES_REQUESTED to COUNCIL_DISCOVERY: the delivery is superseded and no longer current,
  -- the other deliveries are as they were, and the request with its trimmed feedback is the last of
  -- the owner's reviews and the pending feedback.
  pub request_changes_restarts :
      (d : Delivery) (feedback : Option String)
      → p.state ≡ ready_for_owner_review
      → current_delivery p ≡ some d
      → may_decide sha256 p (some d) changes_requested feedback ≡ true
      → (q : Project) × (request_changes sha256 id p feedback ≡ ok q)
        × (q.state ≡ council_discovery)
        × (q.history
            ≡ (p.history ++ record { from = p.state; to = owner_changes_requested } ∷ [])
              ++ record { from = owner_changes_requested; to = council_discovery } ∷ [])
        × (q.deliveries
            ≡ map
                (λ x.
                  if x.id == d.id then record x { status = "SUPERSEDED"; current = false } else x)
                p.deliveries)
        × (q.owner_reviews
            ≡ p.owner_reviews
              ++ record {
                id = id;
                delivery_id = d.id;
                decision = "CHANGES_REQUESTED";
                feedback = some (trim (or_text feedback ""));
              }
                ∷ [])
        × (q.pending_owner_feedback
            ≡ some record {
              review_id = id;
              delivery_id = d.id;
              feedback = some (trim (or_text feedback ""));
            })
  unfolding request_changes apply_decision review_of feedback_text
  request_changes_restarts d feedback s e m = (
    _,
    decides_accepted sha256 id p changes_requested feedback owner_changes_requested
        council_discovery d s e m to_changes to_discovery,
    refl,
    refl,
    refl,
    refl,
    refl,
  )

  -- In any other state, or where the conditions of a decision are not met, an approval is refused
  -- with an error, and the stored project is as it was.
  pub approve_refused :
      (same_state p.state ready_for_owner_review
          && may_decide sha256 p (current_delivery p) approved none)
        ≡ false
      → (error : Thrown) × (approve sha256 id p ≡ raised p error)
  unfolding approve
  approve_refused h = decides_refused sha256 id p approved none owner_approved done h
