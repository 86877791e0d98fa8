-- ===== src/Gate/Observed.antt =====
-- What the completion gate of orchestrator/gate.js requires of the runtime and visual runs.
use autonomous_dev_platform.Base.{
  ℕ, Bool, true, false, not, ◌||◌, Option, none, some, String, List, [], ◌∷◌, ◌++◌, ◌≡◌, refl,
  append_empty_left, arith, if◌then◌else◌, when, is_empty,
}
use autonomous_dev_platform.Project.{Project}
use autonomous_dev_platform.Project.Runs.{RuntimeRun, VisualRun}
use autonomous_dev_platform.Project.Latest.{
  reads, latest_cursor_run, latest_runtime_run, latest_visual_run, run_iteration,
}
use autonomous_dev_platform.Gate.Freshness.{is_runtime_stale, is_visual_stale, differ}
use autonomous_dev_platform.Gate.Security.{Environment}
use autonomous_dev_platform.Gate.{
  runtime_reasons, visual_reasons, accessibility_blocked, runtime_sha,
}
use autonomous_dev_platform.Gate.Completion.{
  can_complete_autonomous_work, requires_runtime_verification, requires_visual_verification,
}
use autonomous_dev_platform.Gate.Sound.{accepted}

runtime_outcome :
    (stale failed not_run blocked : Bool)
    → is_empty (
        (if stale
          then "stale_runtime_evidence" ∷ []
          else if failed
          then "required_runtime_failed" ∷ []
          else when not_run "required_runtime_not_run")
        ++ when blocked "required_accessibility_failed")
      ≡ true
    → (stale ≡ false) × (failed ≡ false) × (not_run ≡ false) × (blocked ≡ false)
runtime_outcome a b c d h = ground arith

visual_outcome :
    (stale other no_run undecided changes clear failed : Bool)
    → is_empty (
        if stale || other
        then "stale_screenshot_evidence" ∷ []
        else if no_run || undecided
        then "required_visual_not_run" ∷ []
        else if changes || not clear
        then "blocking_visual_finding" ∷ []
        else when failed "required_visual_failed")
      ≡ true
    → (stale ≡ false) × (undecided ≡ false) × (changes ≡ false) × (clear ≡ true) × (failed ≡ false)
visual_outcome a b c d e f g h = ground arith

runtime_lem :
    (p : Project) (r : Option RuntimeRun)
    → is_empty (runtime_reasons p r) ≡ true
    → (run : RuntimeRun) × (r ≡ some run)
      × (is_runtime_stale p run ≡ false)
      × (reads run.status "FAIL" ≡ false)
      × (reads run.status "NOT_RUN" ≡ false)
      × (accessibility_blocked run ≡ false)
unfolding runtime_reasons
runtime_lem p none h = cc
runtime_lem p (some run) h =
    let (a, b, c, d) =
      runtime_outcome (is_runtime_stale p run) (reads run.status "FAIL")
        (reads run.status "NOT_RUN") (accessibility_blocked run) h in
    (run, refl, a, b, c, d)

visual_lem :
    (p : Project) (r : Option RuntimeRun) (v : Option VisualRun)
    → is_empty (visual_reasons p r v) ≡ true
    → (run : VisualRun) × (v ≡ some run)
      × (is_visual_stale p run ≡ false)
      × (reads run.decision "NOT_RUN" ≡ false)
      × (reads run.decision "CHANGES_REQUIRED" ≡ false)
      × (is_empty run.blocking_findings ≡ true)
      × (reads run.status "FAIL" ≡ false)
unfolding visual_reasons
visual_lem p r none h = cc
visual_lem p r (some run) h =
    let (a, b, c, d, e) =
      visual_outcome (is_visual_stale p run) (differ (runtime_sha r) run.checkpoint_sha)
        (reads run.status "NOT_RUN") (reads run.decision "NOT_RUN")
        (reads run.decision "CHANGES_REQUIRED") (is_empty run.blocking_findings)
        (reads run.status "FAIL") h in
    (run, refl, a, b, c, d, e)

pub unless_demo :
    (b : Bool) (xs : List String)
    → is_empty (if b then xs else []) ≡ true
    → b ≡ true
    → is_empty xs ≡ true
unless_demo b xs h e = ground arith

module _ (env : Environment) (pending : Bool) (max_iterations : ℕ) (p : Project) where
  -- A project that passes the completion gate and for which the policy, its own or that of its
  -- latest runtime run, requires runtime verification has a runtime run that does not count as stale
  -- against the latest Cursor run's checkpoint, neither failed nor was left out, and has no
  -- blocking finding of a required accessibility check that failed.
  pub required_runtime_passed :
      (can_complete_autonomous_work env pending max_iterations p).ok ≡ true
      → requires_runtime_verification p ≡ true
      → (run : RuntimeRun) × (latest_runtime_run p (run_iteration p (latest_cursor_run p))
          ≡ some run)
        × (is_runtime_stale p run ≡ false)
        × (reads run.status "FAIL" ≡ false)
        × (reads run.status "NOT_RUN" ≡ false)
        × (accessibility_blocked run ≡ false)
  required_runtime_passed h required =
      runtime_lem p _ (unless_demo _ _ (accepted env pending max_iterations p h).runtime required)

  -- A project that passes the completion gate and for which the policy requires visual verification
  -- has a visual run that is not about an older checkpoint or runtime run, did not ask for changes,
  -- has no blocking finding and did not fail.
  pub required_visual_passed :
      (can_complete_autonomous_work env pending max_iterations p).ok ≡ true
      → requires_visual_verification p ≡ true
      → (run : VisualRun) × (latest_visual_run p (run_iteration p (latest_cursor_run p)) ≡ some run)
        × (is_visual_stale p run ≡ false)
        × (reads run.decision "NOT_RUN" ≡ false)
        × (reads run.decision "CHANGES_REQUIRED" ≡ false)
        × (is_empty run.blocking_findings ≡ true)
        × (reads run.status "FAIL" ≡ false)
  required_visual_passed h required = visual_lem p _ _ (
      append_empty_left _ _
        (unless_demo _ _ (accepted env pending max_iterations p h).visual required))
