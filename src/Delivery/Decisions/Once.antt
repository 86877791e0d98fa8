-- ===== src/Delivery/Decisions/Once.antt =====
-- When delivery/decisions.js accepts a decision, and that it does so once.
use autonomous_dev_platform.Base.{
  Bool, true, false, not, ◌&&◌, ◌||◌, Option, none, some, String, List, [], ◌∷◌, ◌++◌, ◌==◌, find,
  is_some, ◌≡◌, refl, arith, if◌then◌else◌, eq_iff, ◌∙◌,
}
use autonomous_dev_platform.Errors.{Thrown}
use autonomous_dev_platform.Project.{Project, OwnerReview}
use autonomous_dev_platform.Project.Runs.{Delivery}
use autonomous_dev_platform.Delivery.Lineage.{delivery_is_current}
use autonomous_dev_platform.Delivery.Decisions.{
  OwnerDecision, approved, changes_requested, Decided, decided, rejected, record_owner_decision,
  outdated, stale, conflict, invalid_feedback, apply_decision, lacks_feedback, has_review,
  review_of,
}

abbrev pub is_decided : Decided → Bool
is_decided (decided p r) = true
is_decided (rejected p e) = false

-- The conditions of the owner's decision.
abbrev pub may_decide :
    (String → String) → Project → Option Delivery → OwnerDecision → Option String → Bool
may_decide sha256 p none decision feedback = false
may_decide sha256 p (some d) decision feedback =
    (d.status == "READY")
    && delivery_is_current sha256 p (some d)
    && not (has_review d.id p)
    && not (lacks_feedback decision feedback)

-- The project that an accepted decision leaves.
abbrev pub decided_project : Decided → Option Project
decided_project (decided p r) = some p
decided_project (rejected p e) = none

accepted_branch :
    (ready current reviewed blank : Bool) (p q r s : Project) (e f g : Thrown)
    (review : OwnerReview)
    → is_decided (
        if not ready || not current
        then rejected p e
        else if reviewed
        then rejected q f
        else if blank
        then rejected r g
        else decided s review)
      ≡ (ready && current && not reviewed && not blank)
accepted_branch a b c d p q r s e f g review = ground arith

decided_branch :
    (a b c : Bool) (p q r s : Project) (e f g : Thrown) (review : OwnerReview) {p' : Project}
    {review' : OwnerReview}
    → (if a
        then rejected p e
        else if b
        then rejected q f
        else if c
        then rejected r g
        else decided s review)
      ≡ decided p' review'
    → (p' ≡ s) × (review' ≡ review)
decided_branch a b c p q r s e f g review h = ground arith

accepted_outcome :
    (ready current reviewed blank : Bool) (p q r s : Project) (e f g : Thrown)
    (review : OwnerReview)
    → (ready && current && not reviewed && not blank) ≡ true
    → (if not ready || not current
        then rejected p e
        else if reviewed
        then rejected q f
        else if blank
        then rejected r g
        else decided s review)
      ≡ decided s review
accepted_outcome a b c d p q r s e f g review h = ground arith

find_appended :
    (id : String) (rs : List OwnerReview) (r : OwnerReview)
    → (r.delivery_id == id) ≡ true
    → is_some (find (λ x. x.delivery_id == id) (rs ++ r ∷ [])) ≡ true
find_appended id [] r h = ground arith
find_appended id (x ∷ rs) r h = ground (arith, find_appended id rs r h)

refused : (a b c d : Bool) → c ≡ true → (a && b && not c && not d) ≡ false
refused a b c d h = ground arith

eq_self : (s : String) → (s == s) ≡ true
eq_self s = ground (arith, eq_iff s s)

apply-has_review :
    (p : Project) (d : Delivery) (decision : OwnerDecision) (r : OwnerReview)
    → (r.delivery_id == d.id) ≡ true
    → has_review d.id (apply_decision p d decision r) ≡ true
unfolding apply_decision
apply-has_review p d approved r h = find_appended d.id p.owner_reviews r h
apply-has_review p d changes_requested r h = find_appended d.id p.owner_reviews r h

module _ (sha256 : String → String) (id : String) (p : Project) (decision : OwnerDecision)
    (feedback : Option String) where
  -- A decision is accepted exactly for a delivery that is READY, current in its lineage and not yet
  -- decided, and a request for changes only with feedback that is not blank.
  pub decision_accepted :
      (d : Option Delivery)
      → is_decided (record_owner_decision sha256 id p d decision feedback)
        ≡ may_decide sha256 p d decision feedback
  unfolding record_owner_decision
  decision_accepted none = refl
  decision_accepted (some d) =
      accepted_branch (d.status == "READY") (delivery_is_current sha256 p (some d))
        (has_review d.id p) (lacks_feedback decision feedback) _ _ _ _ _ _ _ _

  pub decision_inv :
      (d : Delivery) {p' : Project} {r : OwnerReview}
      → record_owner_decision sha256 id p (some d) decision feedback ≡ decided p' r
      → (p' ≡ apply_decision p d decision (review_of id d decision feedback))
        × (r ≡ review_of id d decision feedback)
  unfolding record_owner_decision
  decision_inv d h =
      decided_branch (not (d.status == "READY") || not (delivery_is_current sha256 p (some d)))
        (has_review d.id p) (lacks_feedback decision feedback) (outdated d p) p p _ stale conflict
        invalid_feedback _ h

-- A delivery is decided at most once: after an accepted decision every further one on a delivery with
-- the same identifier is rejected, whatever the decision, the feedback and the delivery's status.
pub decided_once :
    (sha256 : String → String) (id id' : String) (p : Project) (d d' : Delivery)
    (decision decision' : OwnerDecision) (feedback feedback' : Option String) {p' : Project}
    {r : OwnerReview}
    → record_owner_decision sha256 id p (some d) decision feedback ≡ decided p' r
    → d'.id ≡ d.id
    → is_decided (record_owner_decision sha256 id' p' (some d') decision' feedback') ≡ false
unfolding review_of
decided_once sha256 id id' p d d' decision decision' feedback feedback' {p'} {r} h same =
    let (made, review) = decision_inv sha256 id p decision feedback d h in
    let known : has_review d.id p' ≡ true =
      rw made (apply-has_review p d decision (review_of id d decision feedback) (eq_self d.id)) in
    let known' : has_review d'.id p' ≡ true = rw same known in
    decision_accepted sha256 id' p' decision' feedback' (some d')
    ∙ refused (d'.status == "READY") (delivery_is_current sha256 p' (some d')) (has_review d'.id p')
        (lacks_feedback decision' feedback') known'

-- An accepted decision, by its conditions.
pub decision_outcome :
    (sha256 : String → String) (id : String) (p : Project) (d : Delivery) (decision : OwnerDecision)
    (feedback : Option String)
    → may_decide sha256 p (some d) decision feedback ≡ true
    → record_owner_decision sha256 id p (some d) decision feedback
      ≡ decided
          (apply_decision p d decision (review_of id d decision feedback))
          (review_of id d decision feedback)
unfolding record_owner_decision
decision_outcome sha256 id p d decision feedback h =
    accepted_outcome (d.status == "READY") (delivery_is_current sha256 p (some d))
      (has_review d.id p) (lacks_feedback decision feedback) (outdated d p) p p _ stale conflict
      invalid_feedback _ h

-- A decision that is not accepted is rejected with an error.
pub rejection_inv :
    (r : Decided) → is_decided r ≡ false → (p : Project) × (e : Thrown) × (r ≡ rejected p e)
rejection_inv (decided p r) h = cc
rejection_inv (rejected p e) h = (p, e, refl)
