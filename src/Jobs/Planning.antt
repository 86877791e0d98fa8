-- ===== src/Jobs/Planning.antt =====
-- jobs/types.js: which job a project needs next, and how often the owner has sent it back.
use Prim.Native.String.{◌++◌ as concat}
use autonomous_dev_platform.Base.{
  ℕ, Bool, not, ◌&&◌, ◌≡◌, arith, refl, Option, none, some, String, ltb, length, select, is_some,
  ◌==◌, if◌then◌else◌, decimal,
}
use autonomous_dev_platform.States.{
  ProjectState, idea_submitted, specification_ready, owner_changes_requested, cursor_executing,
  ready_for_owner_review, owner_approved, done, failed, is_owner_terminal, is_boot_resumable,
  same_state,
}
use autonomous_dev_platform.Project.{Project}
use autonomous_dev_platform.Project.Latest.{needs_provisioning, provisioning_succeeded}
use autonomous_dev_platform.Jobs.Kinds.{JobType}

-- The job of a state; `provision` says that a foundation is still to be made.
abbrev pub job_of_state : Bool → ProjectState → Option JobType
job_of_state provision idea_submitted = some JobType.council_discovery
job_of_state provision ProjectState.council_discovery = some JobType.council_discovery
job_of_state provision specification_ready =
    if provision then some JobType.project_provisioning else some JobType.cursor_execution
job_of_state provision ProjectState.project_provisioning = some JobType.project_provisioning
job_of_state provision cursor_executing = some JobType.cursor_execution
job_of_state provision ProjectState.platform_verification = some JobType.platform_verification
job_of_state provision ProjectState.runtime_verification = some JobType.runtime_verification
job_of_state provision ProjectState.visual_verification = some JobType.visual_verification
job_of_state provision ProjectState.council_review = some JobType.council_review
job_of_state provision ProjectState.final_verification = some JobType.final_verification
job_of_state provision ProjectState.delivery_preparation = some JobType.delivery_preparation
job_of_state provision owner_changes_requested = some JobType.council_discovery
job_of_state provision ready_for_owner_review = none
job_of_state provision owner_approved = none
job_of_state provision done = none
job_of_state provision failed = none

unfoldable pub next_job_type : Project → Option JobType
unfolding needs_provisioning provisioning_succeeded is_owner_terminal
next_job_type p =
    if is_owner_terminal p.state
    then none
    else if same_state p.state failed
    then none
    else job_of_state (needs_provisioning p && not (provisioning_succeeded p)) p.state

-- The decisions that asked for changes.
unfoldable pub feedback_cycle : Project → ℕ
feedback_cycle p = length (select (λ r. r.decision == "CHANGES_REQUESTED") p.owner_reviews)

unfoldable pub cycle_suffix : Project → String
unfolding feedback_cycle decimal
cycle_suffix p = if ltb 0 (feedback_cycle p) then concat ":fb:" (decimal (feedback_cycle p)) else ""

job_lem :
    (provision : Bool) (s : ProjectState)
    → is_some (
        if is_owner_terminal s
        then none
        else if same_state s failed
        then none
        else job_of_state provision s)
      ≡ is_boot_resumable s
unfolding is_owner_terminal is_boot_resumable
job_lem provision idea_submitted = refl
job_lem provision s = ground arith

-- A project has a next job exactly in the states from which the platform resumes it at its start.
pub next_job_planned : (p : Project) → is_some (next_job_type p) ≡ is_boot_resumable p.state
unfolding next_job_type
next_job_planned p = job_lem (needs_provisioning p && not (provisioning_succeeded p)) p.state
