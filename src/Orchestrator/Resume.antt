-- ===== src/Orchestrator/Resume.antt =====
-- `resumeTargetAfterFailure` and `retry` of orchestrator/orchestrator.js. What a retry starts anew,
-- a job or a run, is left to the caller.
use autonomous_dev_platform.Base.{
  Bool, true, false, not, ◌&&◌, ◌||◌, Option, none, some, ltb, last, truthy, is_some, if◌then◌else◌,
}
use autonomous_dev_platform.States.{
  ProjectState, failed, council_discovery, specification_ready, project_provisioning,
  cursor_executing, platform_verification, runtime_verification, visual_verification,
  council_review, final_verification, delivery_preparation, same_state, state_name,
}
use autonomous_dev_platform.Errors.{platform_error, known, retry_not_eligible}
use autonomous_dev_platform.Project.{Project, HistoryEntry, Checkpoint}
use autonomous_dev_platform.Project.Runs.{CursorRun, VerificationRun, RuntimeRun, VisualRun}
use autonomous_dev_platform.Project.Latest.{
  reads, latest_cursor_run, latest_verification_run, latest_runtime_run, latest_visual_run,
  needs_provisioning, provisioning_succeeded,
}
use autonomous_dev_platform.Gate.{has_valid_spec, review_for_iteration}
use autonomous_dev_platform.Gate.Completion.{review_decides, final_decides}
use autonomous_dev_platform.Gate.Freshness.{should_skip_runtime, should_skip_visual}
use autonomous_dev_platform.Gate.MockPolicy.{current_delivery}
use autonomous_dev_platform.Orchestrator.Transition.{Result, raised, transition}

abbrev run_has_result : CursorRun → Bool
run_has_result r =
    is_some r.result || is_some r.evidence || reads r.status "COMPLETED" || truthy r.checkpoint_sha

-- The latest Cursor run, if it has a result.
abbrev pub completed_run : Option CursorRun → Option CursorRun
completed_run none = none
completed_run (some r) = if run_has_result r then some r else none

abbrev left_cursor : Option HistoryEntry → Bool
left_cursor none = false
left_cursor (some h) = same_state h.from cursor_executing

abbrev at_cursor : Option Checkpoint → Bool
at_cursor none = false
at_cursor (some c) = reads c.type "cursor_execution"

abbrev pub verification_completed : Option VerificationRun → Bool
verification_completed none = false
verification_completed (some v) = v.completed

abbrev pub runtime_completed : Option RuntimeRun → Bool
runtime_completed none = false
runtime_completed (some r) = r.completed

abbrev pub visual_completed : Option VisualRun → Bool
visual_completed none = false
visual_completed (some v) = v.completed

-- The later targets, of a project whose latest Cursor run has a result.
unfoldable pub resume_completed : Project → CursorRun → ProjectState
unfolding latest_verification_run latest_runtime_run latest_visual_run should_skip_runtime
    should_skip_visual review_for_iteration current_delivery
resume_completed p run =
    let verification = latest_verification_run p run.iteration in
    let runtime = latest_runtime_run p run.iteration in
    let review = review_for_iteration p run.iteration in
    if not (verification_completed verification)
    then platform_verification
    else if not (should_skip_runtime p verification) && not (runtime_completed runtime)
    then runtime_verification
    else if runtime_completed runtime
        && not (should_skip_visual p runtime)
        && not (visual_completed (latest_visual_run p run.iteration))
    then visual_verification
    else if not (is_some review)
    then council_review
    else if review_decides review "COMPLETE" && not (is_some p.council.final)
    then final_verification
    else if final_decides p.council.final "COMPLETE" && not (is_some (current_delivery p))
    then delivery_preparation
    else specification_ready

unfoldable pub resume_by_run : Project → Option CursorRun → ProjectState
unfolding resume_completed
resume_by_run p (some run) = resume_completed p run
resume_by_run p none =
    if ltb 0 p.iteration
      || left_cursor (last p.history)
      || at_cursor p.checkpoint
      || is_some (latest_cursor_run p)
    then cursor_executing
    else specification_ready

unfoldable pub resume_target : Project → ProjectState
unfolding has_valid_spec needs_provisioning provisioning_succeeded resume_by_run
resume_target p =
    if not (has_valid_spec p)
    then council_discovery
    else if needs_provisioning p && not (provisioning_succeeded p)
    then project_provisioning
    else resume_by_run p (completed_run (latest_cursor_run p))

unfoldable pub retry_if : Project → Bool → Result
unfolding transition resume_target platform_error state_name
retry_if p false =
    raised p
      (platform_error (some (known retry_not_eligible)) (some (state_name p.state)) (some false))
retry_if p true =
    transition p (record p { error = none }) (resume_target (record p { error = none }))

unfoldable pub retry : Project → Result
unfolding retry_if
retry p = retry_if p (same_state p.state failed)
