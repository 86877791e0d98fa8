-- ===== src/Orchestrator/Owner.antt =====
-- `approve` and `requestChanges` of orchestrator/orchestrator.js, under the project's lock. The
-- recorded security events and the job or run that starts afterwards are left out.
use autonomous_dev_platform.Base.{Bool, true, false, Option, none, some, String}
use autonomous_dev_platform.States.{
  ProjectState, ready_for_owner_review, owner_approved, owner_changes_requested, done,
  council_discovery, same_state, state_name,
}
use autonomous_dev_platform.Errors.{Thrown, platform_error, known, owner_decision_conflict}
use autonomous_dev_platform.Project.{Project}
use autonomous_dev_platform.Gate.MockPolicy.{current_delivery}
use autonomous_dev_platform.Delivery.Decisions.{
  OwnerDecision, approved, changes_requested, Decided, decided, rejected, record_owner_decision,
}
use autonomous_dev_platform.Orchestrator.Transition.{Result, raised, next, transition}

-- The error of a decision in any other state.
unfoldable pub not_reviewable : Project → Thrown
unfolding platform_error state_name
not_reviewable p =
    platform_error (some (known owner_decision_conflict)) (some (state_name p.state)) (some false)

-- Two transitions, each saved; a rejected decision is not saved.
unfoldable pub after_decision : Project → Decided → ProjectState → ProjectState → Result
unfolding transition
after_decision p (rejected p' error) first second = raised p error
after_decision p (decided p' review) first second =
    next (transition p p' first) (λ q. transition q q second)

module _ (sha256 : String → String) where
  unfoldable pub owner_if :
      Bool → String → Project → OwnerDecision → Option String → ProjectState → ProjectState → Result
  unfolding current_delivery record_owner_decision after_decision not_reviewable
  owner_if false id p decision feedback first second = raised p (not_reviewable p)
  owner_if true id p decision feedback first second =
      after_decision p (record_owner_decision sha256 id p (current_delivery p) decision feedback)
        first second

  unfoldable pub owner_decides :
      String → Project → OwnerDecision → Option String → ProjectState → ProjectState → Result
  unfolding owner_if
  owner_decides id p decision feedback first second =
      owner_if (same_state p.state ready_for_owner_review) id p decision feedback first second

  unfoldable pub approve : String → Project → Result
  unfolding owner_decides
  approve id p = owner_decides id p approved none owner_approved done

  unfoldable pub request_changes : String → Project → Option String → Result
  unfolding owner_decides
  request_changes id p feedback =
      owner_decides id p changes_requested feedback owner_changes_requested council_discovery
