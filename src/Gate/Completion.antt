-- ===== src/Gate/Completion.antt =====
-- orchestrator/gate.js: `canCompleteAutonomousWork` and `canEnterOwnerReview`.
-- The environment, whether a secret lease of the project is still to be revoked, the iteration limit
-- and the hash function SHA-256 are arguments.
use autonomous_dev_platform.Base.{
  ℕ, Bool, true, false, not, ◌&&◌, ◌||◌, Option, none, some, String, List, [], ◌∷◌, ◌++◌, ◌==◌, any,
  ltb, truthy, if◌then◌else◌, when, unique, is_empty, is_some,
}
use autonomous_dev_platform.Project.{Project, Review, Final}
use autonomous_dev_platform.Project.Runs.{Evidence, CursorRun, RuntimeRun, VisualRun, Delivery}
use autonomous_dev_platform.Project.Latest.{
  reads, latest_cursor_run, latest_runtime_run, latest_visual_run, run_iteration,
}
use autonomous_dev_platform.Delivery.Lineage.{delivery_is_current}
use autonomous_dev_platform.Gate.MockPolicy.{
  merged_evidence, collect_real_project_mock_violations, collect_deterministic_visual_violations,
  current_delivery,
}
use autonomous_dev_platform.Gate.Security.{Environment, security_reasons}
use autonomous_dev_platform.Gate.Canonical.{is_canonical_evidence}
use autonomous_dev_platform.Gate.{
  has_valid_spec, review_for_iteration, decides, status_of, platform_reasons, runtime_reasons,
  visual_reasons,
}

unfoldable pub requires_platform_verification : Project → Bool
requires_platform_verification p = not p.demo

abbrev policy_requires_runtime : Option RuntimeRun → Bool
policy_requires_runtime none = false
policy_requires_runtime (some r) = elim r.policy [
  | none ↦ false
  | some policy ↦ reads policy.runtime "REQUIRED"
]

abbrev policy_requires_visual : Option RuntimeRun → Bool
policy_requires_visual none = false
policy_requires_visual (some r) = elim r.policy [
  | none ↦ false
  | some policy ↦ reads policy.visual "REQUIRED"
]

unfoldable pub requires_runtime_verification : Project → Bool
unfolding latest_runtime_run
requires_runtime_verification p =
    not p.demo
    && ((elim p.runtime_policy [ none ↦ false | some policy ↦ reads policy.runtime "REQUIRED" ])
        || policy_requires_runtime (latest_runtime_run p p.iteration))

abbrev visual_applies : Option VisualRun → Bool
visual_applies none = false
visual_applies (some v) = truthy v.decision && not (reads v.decision "NOT_APPLICABLE")

unfoldable pub requires_visual_verification : Project → Bool
unfolding latest_runtime_run latest_visual_run
requires_visual_verification p =
    let by_policy = policy_requires_visual (latest_runtime_run p p.iteration) in
    not p.demo
    && ((elim p.runtime_policy [ none ↦ false | some policy ↦ reads policy.visual "REQUIRED" ])
        || by_policy
        || visual_applies (latest_visual_run p p.iteration) && by_policy)

abbrev pub review_decides : Option Review → String → Bool
review_decides none s = false
review_decides (some r) s = decides r.decision s

abbrev pub final_decides : Option Final → String → Bool
final_decides none s = false
final_decides (some f) s = decides f.decision s

-- The review that the gate asks for: that of the latest Cursor run's iteration.
abbrev pub run_review : Project → Option CursorRun → Option Review
run_review p none = none
run_review p (some run) = review_for_iteration p run.iteration

pub record Verdict : Type 0 where
  pub ok : Bool
  pub reasons : List String
  pub verification_level : Option String

abbrev verdict : List String → Option String → Verdict
verdict reasons level = record {
  ok = is_empty (unique reasons);
  reasons = unique reasons;
  verification_level = level;
}

abbrev evidence_level : Option Evidence → Option String
evidence_level none = none
evidence_level (some e) = e.verification_level

-- What the owner gate asks of the current delivery.
unfoldable pub delivery_reasons : (String → String) → Project → Option Delivery → List String
unfolding delivery_is_current
delivery_reasons sha256 p none = "missing_delivery_snapshot" ∷ []
delivery_reasons sha256 p (some d) =
    if not (d.status == "READY")
    then "missing_delivery_snapshot" ∷ []
    else when (not (truthy d.checkpoint_sha)) "missing_final_checkpoint"
      ++ when (not (delivery_is_current sha256 p (some d))) "stale_delivery_lineage"
      ++ when (not d.manifest || not (truthy d.manifest_hash)) "missing_delivery_manifest"
      ++ when (not d.owner_report) "missing_owner_report"
      ++ when (not d.verification_report) "missing_verification_report"
      ++ when (not (reads d.secret_scan "PASS")) "delivery_secret_scan_failed"
      ++ when (not (any (λ a. reads a.kind "SOURCE_ARCHIVE") d.artifacts)) "missing_source_archive"

module _ (env : Environment) (pending : Bool) (max_iterations : ℕ) where
  -- The reasons that `canCompleteAutonomousWork` collects, in its order.
  unfoldable pub completion_reasons : Project → List String
  unfolding merged_evidence requires_platform_verification requires_runtime_verification
      requires_visual_verification review_for_iteration
  completion_reasons p =
      let run = latest_cursor_run p in
      let evidence = merged_evidence p in
      let runtime = latest_runtime_run p (run_iteration p run) in
      let visual = latest_visual_run p (run_iteration p run) in
      collect_real_project_mock_violations p
      ++ when (not (has_valid_spec p)) "missing_specification"
      ++ when (not (is_some run)) "no_cursor_execution"
      ++ when (not (is_canonical_evidence evidence)) "missing_canonical_evidence"
      ++ when (reads (status_of (λ e. e.execution) evidence) "FAIL") "execution_failed"
      ++ (if requires_platform_verification p then platform_reasons p evidence else [])
      ++ (if requires_runtime_verification p then runtime_reasons p runtime else [])
      ++ (if requires_visual_verification p
          then visual_reasons p runtime visual ++ collect_deterministic_visual_violations p true
          else [])
      ++ when (not (review_decides (run_review p run) "COMPLETE")) "review_not_complete"
      ++ when (not (final_decides p.council.final "COMPLETE")) "final_verification_not_complete"
      ++ security_reasons env pending p
      ++ when (is_some p.error) "unresolved_orchestration_error"
      ++ when (ltb max_iterations p.iteration) "iteration_limit_exceeded"

  unfoldable pub can_complete_autonomous_work : Project → Verdict
  unfolding completion_reasons merged_evidence
  can_complete_autonomous_work p =
      verdict (completion_reasons p) (evidence_level (merged_evidence p))

  module _ (sha256 : String → String) where
    unfoldable pub can_enter_owner_review : Project → Verdict
    unfolding can_complete_autonomous_work current_delivery
    can_enter_owner_review p =
        let autonomous = can_complete_autonomous_work p in
        verdict (autonomous.reasons ++ delivery_reasons sha256 p (current_delivery p))
          autonomous.verification_level
