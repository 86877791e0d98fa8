-- ===== src/Gate/MockPolicy.antt =====
-- orchestrator/mock-policy.js: simulated evidence of a project that is not a demo.
use text.Mathlib.Text.{starts_with}
use autonomous_dev_platform.Base.{
  Bool, true, false, not, ◌||◌, Option, none, some, String, List, [], ◌∷◌, ◌++◌, eqb, any, find,
  find_last, last, or_object, or_else, if◌then◌else◌, unique, when,
}
use autonomous_dev_platform.Project.{Project, Checkpoint}
use autonomous_dev_platform.Project.Runs.{
  Aspect, Evidence, CursorRun, RuntimeRun, VisualRun, VerificationRun, Delivery,
}
use autonomous_dev_platform.Project.Latest.{reads, latest_cursor_run, git_checkpoint}

-- `{ ...base, ...over }`, field by field. An aspect of `over` is absent or there; one that is null, which
-- no evidence that the platform makes has, is not told from an absent one.
abbrev pub merge_evidence : Evidence → Evidence → Evidence
merge_evidence base over = record {
  verification_level = elim over.verification_level [
    | none ↦ base.verification_level
    | some l ↦ some l
  ];
  execution = or_object over.execution base.execution;
  git = or_object over.git base.git;
  build = or_object over.build base.build;
  tests = or_object over.tests base.tests;
  lint = or_object over.lint base.lint;
  runtime = or_object over.runtime base.runtime;
  functional = or_object over.functional base.functional;
  accessibility = or_object over.accessibility base.accessibility;
  visual = or_object over.visual base.visual;
  security = or_object over.security base.security;
  provisioning = or_object over.provisioning base.provisioning;
}

abbrev run_evidence : Option CursorRun → Option Evidence
run_evidence none = none
run_evidence (some run) = run.evidence

abbrev merge_optional : Option Evidence → Option Evidence → Option Evidence
merge_optional (some run) (some project) = some (merge_evidence run project)
merge_optional (some run) none = some run
merge_optional none project = project

-- The evidence of the latest Cursor run, under the project's own.
unfoldable pub merged_evidence : Project → Option Evidence
merged_evidence p = merge_optional (run_evidence (latest_cursor_run p)) p.evidence

abbrev pub aspect_is_mock : Option Aspect → Bool
aspect_is_mock none = false
aspect_is_mock (some a) = reads a.provenance "MOCK" || a.mock

abbrev any_aspect_mock : Option Evidence → Bool
any_aspect_mock none = false
any_aspect_mock (some e) = any aspect_is_mock (
    e.execution ∷ e.git ∷ e.build ∷ e.tests ∷ e.lint ∷ e.runtime ∷ e.functional ∷ e.accessibility
    ∷ e.visual ∷ e.security ∷ e.provisioning ∷ [])

abbrev level_is_mock : Option Evidence → Bool
level_is_mock none = false
level_is_mock (some e) = reads e.verification_level "MOCK"

abbrev cursor_is_mock : Option CursorRun → Bool
cursor_is_mock none = false
cursor_is_mock (some run) =
    reads run.execution_mode "MOCK"
    || (elim run.result [ none ↦ false | some r ↦ reads r.execution_mode "MOCK" ])
    || run.mock

abbrev delivery_is_mock : Option Delivery → Bool
delivery_is_mock none = false
delivery_is_mock (some d) = reads d.verification_level "MOCK" || d.demo

abbrev runtime_is_mock : Option RuntimeRun → Bool
runtime_is_mock none = false
runtime_is_mock (some r) = r.mock || reads r.adapter "MOCK"

abbrev visual_is_mock : Option VisualRun → Bool
visual_is_mock none = false
visual_is_mock (some v) = v.mock

abbrev verification_is_mock : Option VerificationRun → Bool
verification_is_mock none = false
verification_is_mock (some v) = v.mock

-- `isMockCheckpoint` and `isSyntheticCheckpoint`
unfoldable pub is_mock_checkpoint : Option String → Bool
is_mock_checkpoint none = false
is_mock_checkpoint (some sha) = starts_with sha "mock:"

unfoldable pub is_synthetic_checkpoint : Option String → Bool
is_synthetic_checkpoint none = false
is_synthetic_checkpoint (some sha) = starts_with sha "mock:" || starts_with sha "unverified:"

-- `deliveries.find(item => item.current) || deliveries.at(-1)`
unfoldable pub current_delivery : Project → Option Delivery
current_delivery p = or_object (find (λ d. d.current) p.deliveries) (last p.deliveries)

abbrev delivery_checkpoint : Option Delivery → Option String
delivery_checkpoint none = none
delivery_checkpoint (some d) = d.checkpoint_sha

abbrev project_checkpoint : Option Checkpoint → Option String
project_checkpoint none = none
project_checkpoint (some c) = c.sha

abbrev cursor_checkpoint : Option CursorRun → Option String → Option String
cursor_checkpoint none other = other
cursor_checkpoint (some run) other =
    or_else run.checkpoint_sha (or_else (git_checkpoint run.git) other)

-- The checkpoint that the mock policy judges.
unfoldable pub judged_checkpoint : Project → Option String
unfolding current_delivery
judged_checkpoint p = cursor_checkpoint (latest_cursor_run p) (
    or_else (delivery_checkpoint (current_delivery p))
      (or_else (project_checkpoint p.checkpoint) none))

abbrev pub sandbox_is_mock : Project → Bool
sandbox_is_mock p =
    (elim p.sandbox_provenance [ none ↦ false | some s ↦ reads s.sandbox_mode "MOCK" ])
    || (elim p.security [ none ↦ false | some s ↦ reads s.sandbox_mode "MOCK" ])

abbrev pub mock_reason : String
mock_reason = "mock_evidence_not_allowed_for_real_project"

abbrev pub mock_checkpoint_reason : String
mock_checkpoint_reason = "mock_checkpoint_not_allowed_for_real_project"

abbrev pub deterministic_visual_reason : String
deterministic_visual_reason = "deterministic_visual_not_allowed_for_required_ai_review"

-- Every sign of simulation that the policy looks for, apart from the checkpoint.
unfoldable pub looks_mock : Project → Bool
unfolding merged_evidence current_delivery
looks_mock p =
    let evidence = merged_evidence p in
    level_is_mock evidence
    || reads p.verification_level "MOCK"
    || delivery_is_mock (current_delivery p)
    || any_aspect_mock evidence
    || cursor_is_mock (latest_cursor_run p)
    || runtime_is_mock (last p.runtime_runs)
    || visual_is_mock (last p.visual_review_runs)
    || verification_is_mock (last p.verification_runs)
    || sandbox_is_mock p

unfoldable pub mock_reasons : Project → List String
unfolding merged_evidence current_delivery is_mock_checkpoint is_synthetic_checkpoint
    judged_checkpoint
mock_reasons p =
    let evidence = merged_evidence p in
    when (level_is_mock evidence) mock_reason
    ++ when (reads p.verification_level "MOCK") mock_reason
    ++ when (delivery_is_mock (current_delivery p)) mock_reason
    ++ when (any_aspect_mock evidence) mock_reason
    ++ when (cursor_is_mock (latest_cursor_run p)) mock_reason
    ++ when (runtime_is_mock (last p.runtime_runs)) mock_reason
    ++ when (visual_is_mock (last p.visual_review_runs)) mock_reason
    ++ when (verification_is_mock (last p.verification_runs)) mock_reason
    ++ when (sandbox_is_mock p) mock_reason
    ++ when
        (is_mock_checkpoint (judged_checkpoint p) || is_synthetic_checkpoint (judged_checkpoint p))
        mock_checkpoint_reason

unfoldable pub collect_real_project_mock_violations : Project → List String
unfolding mock_reasons
collect_real_project_mock_violations p = if p.demo then [] else unique (mock_reasons p)

unfoldable pub is_heuristic_visual_run : VisualRun → Bool
is_heuristic_visual_run v =
    v.heuristic_only
    || (elim v.ai_reviewed [ some false ↦ true | _ ↦ false ])
    || reads v.chair_provider "deterministic"

unfoldable pub collect_deterministic_visual_violations : Project → Bool → List String
unfolding is_heuristic_visual_run
collect_deterministic_visual_violations p required =
    if p.demo || not required
    then []
    else elim (or_object (find_last (λ v. eqb v.iteration p.iteration) p.visual_review_runs)
        (last p.visual_review_runs)) [
          | none ↦ []
          | some v ↦
              if reads v.decision "NOT_APPLICABLE"
              then []
              else when (is_heuristic_visual_run v) deterministic_visual_reason
        ]
