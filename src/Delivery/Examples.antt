-- ===== src/Delivery/Examples.antt =====
-- The evidence's lineage on a concrete project.
use autonomous_dev_platform.Base.{
  true, false, not, ◌&&◌, ◌≡◌, refl, none, some, same_text, truthy, is_some, [],
}
use autonomous_dev_platform.Project.{Project}
use autonomous_dev_platform.Project.Samples.{sample_project}
use autonomous_dev_platform.Project.Latest.{latest_runtime_run, latest_visual_run}
use autonomous_dev_platform.Gate.MockPolicy.{
  is_synthetic_checkpoint, collect_real_project_mock_violations,
}
use autonomous_dev_platform.Delivery.Validation

abbrev project : Project
project = record (sample_project none) {
  runtime_runs = [];
  visual_review_runs = [];
  verification_runs = [];
}

valid : (Validation.validate_evidence_lineage project (some "0fa9b3c")).0 ≡ true
unfolding Validation.validate_evidence_lineage collect_real_project_mock_violations
valid = refl

valid_lineage_matches_example :
    (truthy (some "0fa9b3c") ≡ true)
    × (Validation.is_git_object_id (some "0fa9b3c") ≡ true)
    × (is_synthetic_checkpoint (some "0fa9b3c") ≡ false)
    × (Validation.elsewhere (Validation.runtime_sha (latest_runtime_run project 1)) (some "0fa9b3c")
        ≡ false)
    × (Validation.elsewhere (Validation.visual_sha (latest_visual_run project 1)) (some "0fa9b3c")
        ≡ false)
    × (Validation.old_screenshot (some "0fa9b3c") (latest_runtime_run project 1) ≡ false)
    × ((truthy (Validation.sandbox_sha project)
          && not (same_text (Validation.sandbox_sha project) (some "0fa9b3c")))
        ≡ false)
    × (is_some project.council.final ≡ true)
valid_lineage_matches_example = Validation.valid_lineage_matches project (some "0fa9b3c") valid refl
