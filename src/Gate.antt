-- ===== src/Gate.antt =====
-- orchestrator/gate.js: when the autonomous work is complete, and when the owner may review it.
-- A check that the source makes only where a value is present is a function of the optional value.
pub mod MockPolicy
pub mod Security
pub mod Freshness
pub mod Canonical
pub mod Completion
pub mod Sound
pub mod Observed
pub mod Required
pub mod Owner
mod Examples
use autonomous_dev_platform.Base.{
  ℕ, Bool, false, not, ◌&&◌, ◌||◌, Option, none, some, String, List, [], ◌∷◌, ◌++◌, ◌==◌, any, find,
  eqb, or_object, truthy, if◌then◌else◌, when, is_empty, or_else, trim,
}
use autonomous_dev_platform.Project.{Project, Spec, Review, Decision, Provisioning}
use autonomous_dev_platform.Project.Runs.{
  Aspect, Evidence, VerificationRun, RuntimeRun, VisualRun, ProvisioningRun, VerificationPolicy,
}
use autonomous_dev_platform.Project.Latest.{
  reads, latest_cursor_run, latest_verification_run, latest_provisioning_run, run_iteration,
  is_existing_repository_project, repository_type, repository_baseline,
}
use Freshness.{is_runtime_stale, is_visual_stale, differ}

-- `specProductName`
unfoldable pub spec_product_name : Spec → Option String
spec_product_name s = or_else s.product_name (or_else s.nested_name none)

unfoldable pub valid_spec : Option Spec → Bool
unfolding spec_product_name trim
valid_spec none = false
valid_spec (some s) =
    (elim s.cursor_prompt [ none ↦ false | some t ↦ not (trim t == "") ])
    && truthy (spec_product_name s)

unfoldable pub has_valid_spec : Project → Bool
has_valid_spec p = valid_spec p.council.spec

unfoldable pub review_for_iteration : Project → ℕ → Option Review
review_for_iteration p n = find (λ r. eqb r.iteration n) p.council.reviews

-- `decision?.decision === text`
abbrev pub decides : Option Decision → String → Bool
decides none s = false
decides (some d) s = reads d.decision s

abbrev aspect_status : Option Aspect → Option String
aspect_status none = none
aspect_status (some a) = a.status

abbrev pub status_of : (Evidence → Option Aspect) → Option Evidence → Option String
status_of aspect none = none
status_of aspect (some e) = aspect_status (aspect e)

-- One of the required checks of a verification policy.
abbrev pub check_reasons : Option String → Option String → String → String → String → List String
check_reasons level status failed not_run unknown =
    if not (reads level "REQUIRED")
    then []
    else if reads status "FAIL"
    then failed ∷ []
    else if not (truthy status) || reads status "NOT_RUN"
    then not_run ∷ []
    else when (reads status "UNKNOWN") unknown

abbrev pub policy_level : (VerificationPolicy → Option String) → VerificationRun → Option String
policy_level level v = elim v.policy [ none ↦ none | some policy ↦ level policy ]

abbrev pub verification_reasons : Option Evidence → Option VerificationRun → List String
verification_reasons e none = "required_verification_not_run" ∷ []
verification_reasons e (some v) =
    check_reasons (policy_level (λ l. l.build) v) (status_of (λ x. x.build) e)
      "required_build_failed" "required_build_not_run" "required_build_unknown"
    ++ check_reasons (policy_level (λ l. l.tests) v) (status_of (λ x. x.tests) e)
        "required_tests_failed" "required_tests_not_run" "required_tests_unknown"
    ++ check_reasons (policy_level (λ l. l.lint) v) (status_of (λ x. x.lint) e)
        "required_lint_failed" "required_lint_not_run" "required_lint_unknown"

abbrev of_run : Option ProvisioningRun → Option Provisioning
of_run none = none
of_run (some r) = some record { status = r.status; baseline_sha = r.baseline_sha }

-- `project.provisioning || latestProvisioningRun(project)`
abbrev pub provisioning : Project → Option Provisioning
provisioning p = or_object p.provisioning (of_run (latest_provisioning_run p))

abbrev pub provisioning_reasons : Project → Option Provisioning → List String
provisioning_reasons p none = "provisioning_not_run" ∷ []
provisioning_reasons p (some v) =
    (if reads v.status "NOT_RUN"
      then "provisioning_not_run" ∷ []
      else if reads v.status "FAIL"
      then "provisioning_failed" ∷ []
      else when (not (reads v.status "PASS") && not (reads v.status "NOT_APPLICABLE"))
          "provisioning_not_run")
    ++ when
        (reads v.status "PASS"
          && not (truthy v.baseline_sha)
          && not (truthy (repository_baseline p)))
        "missing_provisioning_baseline"

unfoldable pub platform_reasons : Project → Option Evidence → List String
unfolding is_existing_repository_project latest_verification_run
platform_reasons p e =
    verification_reasons e (latest_verification_run p (run_iteration p (latest_cursor_run p)))
    ++ when (reads (repository_type p) "UNPROVISIONED_NEW_PROJECT") "unprovisioned_project"
    ++ (if is_existing_repository_project p then [] else provisioning_reasons p (provisioning p))

abbrev pub accessibility_blocked : RuntimeRun → Bool
accessibility_blocked r =
    (elim r.policy [ none ↦ false | some policy ↦ reads policy.accessibility "REQUIRED" ])
    && any (λ item. reads item.status "FAIL" && any (λ blocking. blocking) item.findings)
        r.accessibility

unfoldable pub runtime_reasons : Project → Option RuntimeRun → List String
unfolding is_runtime_stale
runtime_reasons p none = "required_runtime_not_run" ∷ []
runtime_reasons p (some r) =
    (if is_runtime_stale p r
      then "stale_runtime_evidence" ∷ []
      else if reads r.status "FAIL"
      then "required_runtime_failed" ∷ []
      else when (reads r.status "NOT_RUN") "required_runtime_not_run")
    ++ when (accessibility_blocked r) "required_accessibility_failed"

abbrev pub runtime_sha : Option RuntimeRun → Option String
runtime_sha none = none
runtime_sha (some r) = r.checkpoint_sha

unfoldable pub visual_reasons : Project → Option RuntimeRun → Option VisualRun → List String
unfolding is_visual_stale
visual_reasons p r none = "required_visual_not_run" ∷ []
visual_reasons p r (some v) =
    if is_visual_stale p v || differ (runtime_sha r) v.checkpoint_sha
    then "stale_screenshot_evidence" ∷ []
    else if reads v.status "NOT_RUN" || reads v.decision "NOT_RUN"
    then "required_visual_not_run" ∷ []
    else if reads v.decision "CHANGES_REQUIRED" || not (is_empty v.blocking_findings)
    then "blocking_visual_finding" ∷ []
    else when (reads v.status "FAIL") "required_visual_failed"
