-- ===== src/Delivery/Validation.antt =====
-- `validateEvidenceLineage` (delivery/lineage.js) and `isGitObjectId` (orchestrator/mock-policy.js):
-- whether the evidence of a delivery is about its checkpoint.
use Prim.Native.Char.{code}
use Prim.Native.String.{[] as no_text, ◌∷◌ as char}
use autonomous_dev_platform.Base.{
  ℕ, suc, Bool, true, false, not, ◌&&◌, ◌||◌, ◌≡◌, refl, arith, sym, ◌∙◌, Option, none, some,
  String, List, [], ◌++◌, any, leb, is_some, is_empty, unique, unique_empty, append_empty, when,
  same_text, truthy, or_else, trim, or_text, if◌then◌else◌,
}
use autonomous_dev_platform.Project.{Project, Provisioning, Spec}
use autonomous_dev_platform.Project.Runs.{VerificationRun, RuntimeRun, VisualRun}
use autonomous_dev_platform.Project.Latest.{
  reads, latest_cursor_run, latest_verification_run, latest_runtime_run, latest_visual_run,
  run_iteration, repository_baseline,
}
use autonomous_dev_platform.Gate.{provisioning}
use autonomous_dev_platform.Gate.MockPolicy.{
  collect_real_project_mock_violations, is_mock_checkpoint, is_synthetic_checkpoint,
}

abbrev is_hex : ℕ → Bool
is_hex n = leb 48 n && leb n 57 || leb 97 n && leb n 102 || leb 65 n && leb n 70

abbrev all_hex : String → Bool
all_hex no_text = true
all_hex (char c s) = is_hex (code c) && all_hex s

abbrev characters : String → ℕ
characters no_text = 0
characters (char c s) = suc (characters s)

unfoldable pub is_git_object_id : Option String → Bool
unfolding trim
is_git_object_id value =
    let s = trim (or_text value "") in all_hex s && leb 7 (characters s) && leb (characters s) 64

object_test : is_git_object_id (some " 0Fa9b3c ") ≡ true
unfolding is_git_object_id
object_test = refl

no_object_test : is_git_object_id (some "0Fa9b3z") ≡ false
unfolding is_git_object_id
no_object_test = refl

-- A known checkpoint of a run that is not the one in question.
abbrev pub elsewhere : Option String → Option String → Bool
elsewhere run sha = truthy run && truthy sha && not (same_text run sha)

abbrev verification_sha : Option VerificationRun → Option String
verification_sha none = none
verification_sha (some v) = v.checkpoint_sha

abbrev pub runtime_sha : Option RuntimeRun → Option String
runtime_sha none = none
runtime_sha (some r) = r.checkpoint_sha

abbrev pub visual_sha : Option VisualRun → Option String
visual_sha none = none
visual_sha (some v) = v.checkpoint_sha

abbrev pub old_screenshot : Option String → Option RuntimeRun → Bool
old_screenshot sha none = false
old_screenshot sha (some r) =
    any (λ s. truthy s.checkpoint_sha && not (same_text s.checkpoint_sha sha)) r.screenshots

abbrev pub sandbox_sha : Project → Option String
sandbox_sha p = elim p.sandbox_provenance [ none ↦ none | some s ↦ s.checkpoint_sha ]

abbrev has_prompt : Option Spec → Bool
has_prompt none = false
has_prompt (some s) = truthy s.cursor_prompt

abbrev lacks_baseline : Project → Option Provisioning → Bool
lacks_baseline p none = false
lacks_baseline p (some v) =
    reads v.status "PASS" && not (truthy (or_else v.baseline_sha (repository_baseline p)))

-- The reasons that count for a project that is no demo only.
unfoldable pub stale_reasons : Project → Option String → List String
unfolding latest_verification_run latest_runtime_run latest_visual_run
stale_reasons p sha =
    let n = run_iteration p (latest_cursor_run p) in
    let verification = verification_sha (latest_verification_run p n) in
    let runtime = latest_runtime_run p n in
    when (elsewhere verification sha && not (reads verification "none"))
      "stale_platform_verification"
    ++ when (elsewhere (runtime_sha runtime) sha) "stale_runtime_evidence"
    ++ when (elsewhere (visual_sha (latest_visual_run p n)) sha) "stale_visual_evidence"
    ++ when (old_screenshot sha runtime) "stale_screenshot_evidence"
    ++ when (truthy (sandbox_sha p) && not (same_text (sandbox_sha p) sha))
        "stale_security_evidence"

-- The reasons apart from the mock policy's.
unfoldable pub own_reasons : Project → Option String → List String
unfolding stale_reasons is_git_object_id
own_reasons p sha =
    when (not (has_prompt p.council.spec)) "missing_authoritative_spec"
    ++ when (not p.demo && lacks_baseline p (provisioning p)) "missing_provisioning_baseline"
    ++ when (not (truthy sha)) "missing_final_checkpoint"
    ++ when
        (not p.demo
          && (is_mock_checkpoint sha || is_synthetic_checkpoint sha || not (is_git_object_id sha)))
        "mock_checkpoint_not_allowed_for_real_project"
    ++ (if p.demo then [] else stale_reasons p sha)
    ++ when (not (is_some p.council.final)) "missing_final_adversarial_review"

unfoldable pub lineage_reasons : Project → Option String → List String
unfolding own_reasons
lineage_reasons p sha = collect_real_project_mock_violations p ++ own_reasons p sha

-- `ok` and `reasons` of the result.
unfoldable pub validate_evidence_lineage : Project → Option String → Bool × List String
unfolding lineage_reasons
validate_evidence_lineage p sha =
    (is_empty (unique (lineage_reasons p sha)), unique (lineage_reasons p sha))

lineage_outcome :
    (demo prompt baseline known mock synthetic object verification runtime visual screenshot
      security final : Bool)
    → is_empty (
        when (not prompt) "missing_authoritative_spec"
        ++ when (not demo && baseline) "missing_provisioning_baseline"
        ++ when (not known) "missing_final_checkpoint"
        ++ when
            (not demo && (mock || synthetic || not object))
            "mock_checkpoint_not_allowed_for_real_project"
        ++ (if demo
            then []
            else when verification "stale_platform_verification"
              ++ when runtime "stale_runtime_evidence"
              ++ when visual "stale_visual_evidence"
              ++ when screenshot "stale_screenshot_evidence"
              ++ when security "stale_security_evidence")
        ++ when (not final) "missing_final_adversarial_review")
      ≡ true
    → demo ≡ false
    → (known ≡ true)
      × (object ≡ true)
      × (synthetic ≡ false)
      × (runtime ≡ false)
      × (visual ≡ false)
      × (screenshot ≡ false)
      × (security ≡ false)
      × (final ≡ true)
lineage_outcome a c d e f g h i j k l m n p q = ground arith

-- The evidence of a project that is no demo is accepted for a checkpoint only if the checkpoint has
-- the form of a Git object's name and is not synthetic, the runtime run and the visual run are not
-- about another checkpoint, no screenshot and no sandbox report is, and there is a final
-- verification.
pub valid_lineage_matches :
    (p : Project) (sha : Option String)
    → (validate_evidence_lineage p sha).0 ≡ true
    → p.demo ≡ false
    → let n = run_iteration p (latest_cursor_run p) in
      (truthy sha ≡ true)
      × (is_git_object_id sha ≡ true)
      × (is_synthetic_checkpoint sha ≡ false)
      × (elsewhere (runtime_sha (latest_runtime_run p n)) sha ≡ false)
      × (elsewhere (visual_sha (latest_visual_run p n)) sha ≡ false)
      × (old_screenshot sha (latest_runtime_run p n) ≡ false)
      × ((truthy (sandbox_sha p) && not (same_text (sandbox_sha p) sha)) ≡ false)
      × (is_some p.council.final ≡ true)
unfolding validate_evidence_lineage lineage_reasons own_reasons stale_reasons
valid_lineage_matches p sha h real =
    lineage_outcome p.demo (has_prompt p.council.spec) (lacks_baseline p (provisioning p))
      (truthy sha) (is_mock_checkpoint sha) (is_synthetic_checkpoint sha) (is_git_object_id sha) _
      (elsewhere (runtime_sha (latest_runtime_run p (run_iteration p (latest_cursor_run p)))) sha)
      (elsewhere (visual_sha (latest_visual_run p (run_iteration p (latest_cursor_run p)))) sha)
      (old_screenshot sha (latest_runtime_run p (run_iteration p (latest_cursor_run p))))
      (truthy (sandbox_sha p) && not (same_text (sandbox_sha p) sha)) (is_some p.council.final)
      (append_empty (collect_real_project_mock_violations p) (own_reasons p sha)
        (sym (unique_empty (lineage_reasons p sha)) ∙ h))
      real
