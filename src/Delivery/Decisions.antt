-- ===== src/Delivery/Decisions.antt =====
-- delivery/decisions.js: the owner's decision on a delivery. The source changes the delivery object
-- that the project's list holds; here the delivery is changed in the list, by its identifier. The new
-- identifier of the review and the hash function SHA-256 are arguments; times are left out.
pub mod Once
use autonomous_dev_platform.Base.{
  Bool, true, false, not, ◌&&◌, ◌||◌, Option, none, some, String, [], ◌∷◌, ◌++◌, ◌==◌, find, map,
  is_some, same_text, or_object, if◌then◌else◌, truthy, trim, or_text,
}
use autonomous_dev_platform.Errors.{
  Thrown, platform_error, known, stale_delivery, owner_decision_conflict, invalid_owner_feedback,
}
use autonomous_dev_platform.Project.{Project, OwnerReview, Repository}
use autonomous_dev_platform.Project.Runs.{Delivery}
use autonomous_dev_platform.Delivery.Lineage.{delivery_is_current, final_checkpoint_sha}
use autonomous_dev_platform.Gate.MockPolicy.{current_delivery}

pub data OwnerDecision : Type 0 where
  approved changes_requested : OwnerDecision

abbrev pub decision_name : OwnerDecision → String
decision_name approved = "APPROVED"
decision_name changes_requested = "CHANGES_REQUESTED"

-- The project after the call, and the review or the error that it throws.
pub data Decided : Type 0 where
  decided : Project → OwnerReview → Decided
  rejected : Project → Thrown → Decided

abbrev pub change_delivery : String → (Delivery → Delivery) → Project → Project
change_delivery id set p = record p {
  deliveries = map (λ d. if d.id == id then set d else d) p.deliveries;
}

abbrev stale : Thrown
unfolding platform_error
stale = platform_error (some (known stale_delivery)) (some "READY_FOR_OWNER_REVIEW") (some false)

abbrev conflict : Thrown
unfolding platform_error
conflict =
    platform_error (some (known owner_decision_conflict)) (some "READY_FOR_OWNER_REVIEW")
      (some false)

abbrev invalid_feedback : Thrown
unfolding platform_error
invalid_feedback =
    platform_error (some (known invalid_owner_feedback)) (some "READY_FOR_OWNER_REVIEW")
      (some false)

-- `String(feedback || '').trim()`
unfoldable pub feedback_text : Option String → String
unfolding trim
feedback_text feedback = trim (or_text feedback "")

unfoldable pub review_of : String → Delivery → OwnerDecision → Option String → OwnerReview
unfolding feedback_text
review_of id d decision feedback = record {
  id = id;
  delivery_id = d.id;
  decision = decision_name decision;
  feedback = elim decision [ approved ↦ none | changes_requested ↦ some (feedback_text feedback) ];
}

abbrev approved_repository : Option Repository → Option Repository
approved_repository none = none
approved_repository (some r) = some (record r { lifecycle_status = some "APPROVED" })

-- What an accepted decision changes.
unfoldable pub apply_decision : Project → Delivery → OwnerDecision → OwnerReview → Project
apply_decision p d approved review =
    record (change_delivery d.id (λ x. record x { status = "APPROVED"; current = true }) p) {
      owner_reviews = p.owner_reviews ++ review ∷ [];
      completion = some record {
        delivery_version = d.version;
        final_checkpoint = d.checkpoint_sha;
        owner_review_id = review.id;
        artifact_hashes = map (λ a. a.sha256) d.artifacts;
      };
      repository = approved_repository p.repository;
    }
apply_decision p d changes_requested review =
    record (change_delivery d.id (λ x. record x { status = "SUPERSEDED"; current = false }) p) {
      owner_reviews = p.owner_reviews ++ review ∷ [];
      pending_owner_feedback =
          some record { review_id = review.id; delivery_id = d.id; feedback = review.feedback };
      owner_feedback = p.owner_feedback ++ review ∷ [];
    }

unfoldable pub lacks_feedback : OwnerDecision → Option String → Bool
unfolding feedback_text
lacks_feedback approved feedback = false
lacks_feedback changes_requested feedback = feedback_text feedback == ""

-- The delivery is marked stale unless it was approved.
abbrev pub outdated : Delivery → Project → Project
outdated d p =
    change_delivery d.id
      (λ x. record x { status = if x.status == "APPROVED" then x.status else "STALE" }) p

abbrev pub has_review : String → Project → Bool
has_review id p = is_some (find (λ r. r.delivery_id == id) p.owner_reviews)

module _ (sha256 : String → String) where
  unfoldable pub record_owner_decision :
      String → Project → Option Delivery → OwnerDecision → Option String → Decided
  unfolding delivery_is_current apply_decision review_of lacks_feedback stale conflict
      invalid_feedback
  record_owner_decision id p none decision feedback = rejected p stale
  record_owner_decision id p (some d) decision feedback =
      if not (d.status == "READY") || not (delivery_is_current sha256 p (some d))
      then rejected (outdated d p) stale
      else if has_review d.id p
      then rejected p conflict
      else if lacks_feedback decision feedback
      then rejected p invalid_feedback
      else let review = review_of id d decision feedback in
        decided (apply_decision p d decision review) review

abbrev made_stale : Delivery → Delivery
made_stale d = record d { status = "STALE"; current = false }

-- The delivery that is about to be decided, and the project in which it is stale if the checkpoint
-- has moved on.
unfoldable pub assert_current_delivery : Project → String → Option Delivery × Project
unfolding current_delivery final_checkpoint_sha
assert_current_delivery p id =
    elim (or_object (find (λ d. d.id == id) p.deliveries) (current_delivery p)) [
      | none ↦ (none, p)
      | some d ↦
          if truthy (some (final_checkpoint_sha p))
            && not (same_text d.checkpoint_sha (some (final_checkpoint_sha p)))
          then (some (made_stale d), change_delivery d.id made_stale p)
          else (some d, p)
    ]
