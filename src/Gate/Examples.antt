-- ===== src/Gate/Examples.antt =====
-- The gates on concrete projects.
use autonomous_dev_platform.Base.{
  Bool, true, false, not, ◌||◌, ◌&&◌, none, some, String, ◌==◌, ◌≡◌, refl, ◌≤◌, truthy, is_empty,
}
use autonomous_dev_platform.Project.{Project, Review, Final}
use autonomous_dev_platform.Project.Runs.{CursorRun, RuntimeRun, VisualRun, Delivery}
use autonomous_dev_platform.Project.Samples.{sample_project, sample_delivery}
use autonomous_dev_platform.Delivery.Lineage.{final_checkpoint_sha, verification_set_hash}
use autonomous_dev_platform.Project.Latest.{
  reads, latest_cursor_run, latest_verification_run, latest_runtime_run, latest_visual_run,
  repository_type, is_existing_repository_project,
}
use autonomous_dev_platform.Gate
use autonomous_dev_platform.Gate.MockPolicy
use autonomous_dev_platform.Gate.Security
use autonomous_dev_platform.Gate.Security.{Environment}
use autonomous_dev_platform.Gate.Freshness
use autonomous_dev_platform.Gate.Canonical
use autonomous_dev_platform.Gate.Completion
use autonomous_dev_platform.Gate.Sound
use autonomous_dev_platform.Gate.Observed
use autonomous_dev_platform.Gate.Required
use autonomous_dev_platform.Gate.Owner

abbrev environment : Environment
environment = record { security_profile = none; demo_mode = false }

abbrev sha256 : String → String
sha256 s = s

abbrev ready : Project
ready = sample_project (some (sample_delivery "READY" "abc:v1:PASS:r1:PASS:w1:COMPLETE:PASS"))

accepts : (Completion.can_complete_autonomous_work environment false 12 ready).ok ≡ true
unfolding Completion.can_complete_autonomous_work MockPolicy.collect_real_project_mock_violations
    Gate.has_valid_spec Gate.valid_spec Canonical.is_canonical_evidence Gate.platform_reasons
    Gate.runtime_reasons Gate.visual_reasons MockPolicy.collect_deterministic_visual_violations
    Security.security_reasons
accepts = refl

accepts_owner : (Completion.can_enter_owner_review environment false 12 sha256 ready).ok ≡ true
unfolding Completion.can_enter_owner_review MockPolicy.collect_real_project_mock_violations
    Gate.has_valid_spec Gate.valid_spec Canonical.is_canonical_evidence Gate.platform_reasons
    Gate.runtime_reasons Gate.visual_reasons MockPolicy.collect_deterministic_visual_violations
    Security.security_reasons Completion.delivery_reasons final_checkpoint_sha verification_set_hash
accepts_owner = refl

runtime_required : Completion.requires_runtime_verification ready ≡ true
unfolding Completion.requires_runtime_verification
runtime_required = refl

visual_required : Completion.requires_visual_verification ready ≡ true
unfolding Completion.requires_visual_verification
visual_required = refl

accepted_is_genuine_example :
    (MockPolicy.looks_mock ready ≡ false)
    × (MockPolicy.is_mock_checkpoint (MockPolicy.judged_checkpoint ready) ≡ false)
    × (MockPolicy.is_synthetic_checkpoint (MockPolicy.judged_checkpoint ready) ≡ false)
accepted_is_genuine_example = Sound.accepted_is_genuine environment false 12 ready accepts refl

accepted_is_complete_example :
    (Gate.has_valid_spec ready ≡ true)
    × (Canonical.is_canonical_evidence (MockPolicy.merged_evidence ready) ≡ true)
    × (reads (Gate.status_of (λ e. e.execution) (MockPolicy.merged_evidence ready)) "FAIL" ≡ false)
    × ((run : CursorRun) × (review : Review) × (latest_cursor_run ready ≡ some run)
        × (Gate.review_for_iteration ready run.iteration ≡ some review)
        × (Gate.decides review.decision "COMPLETE" ≡ true))
    × ((final : Final) × (ready.council.final ≡ some final)
        × (Gate.decides final.decision "COMPLETE" ≡ true))
    × (ready.error ≡ none)
    × (ready.iteration ≤ 12)
accepted_is_complete_example = Sound.accepted_is_complete environment false 12 ready accepts

required_checks_settled_example :
    (Required.verified (MockPolicy.merged_evidence ready) (latest_verification_run ready 1) ≡ true)
    × (reads (repository_type ready) "UNPROVISIONED_NEW_PROJECT" ≡ false)
    × ((is_existing_repository_project ready
          || Required.provisioned ready (Gate.provisioning ready))
        ≡ true)
required_checks_settled_example =
    Required.required_checks_settled environment false 12 ready accepts refl

required_runtime_passed_example :
    (run : RuntimeRun) × (latest_runtime_run ready 1 ≡ some run)
    × (Freshness.is_runtime_stale ready run ≡ false)
    × (reads run.status "FAIL" ≡ false)
    × (reads run.status "NOT_RUN" ≡ false)
    × (Gate.accessibility_blocked run ≡ false)
required_runtime_passed_example =
    Observed.required_runtime_passed environment false 12 ready accepts runtime_required

required_visual_passed_example :
    (run : VisualRun) × (latest_visual_run ready 1 ≡ some run)
    × (Freshness.is_visual_stale ready run ≡ false)
    × (reads run.decision "NOT_RUN" ≡ false)
    × (reads run.decision "CHANGES_REQUIRED" ≡ false)
    × (is_empty run.blocking_findings ≡ true)
    × (reads run.status "FAIL" ≡ false)
required_visual_passed_example =
    Observed.required_visual_passed environment false 12 ready accepts visual_required

accepted_is_secure_example :
    (Security.has_unresolved_sandbox_violations ready ≡ false)
    × (Security.has_blocking_secret_findings ready ≡ false)
    × (◌≡◌ {A = Bool} false false)
    × ((not (Security.is_hardened_profile (Security.resolve_security_profile environment ready))
          || Required.hardened_evidence ready)
        ≡ true)
accepted_is_secure_example = Required.accepted_is_secure environment false 12 ready accepts refl

owner_review_is_backed_example :
    ((Completion.can_complete_autonomous_work environment false 12 ready).ok ≡ true)
    × ((delivery : Delivery) × (MockPolicy.current_delivery ready ≡ some delivery)
        × ((delivery.status == "READY") ≡ true)
        × (delivery.checkpoint_sha ≡ some (final_checkpoint_sha ready))
        × (delivery.verification_set_hash ≡ some (verification_set_hash sha256 ready))
        × ((delivery.manifest && truthy delivery.manifest_hash) ≡ true)
        × (delivery.owner_report ≡ true)
        × (delivery.verification_report ≡ true)
        × (reads delivery.secret_scan "PASS" ≡ true)
        × (Owner.has_source_archive delivery ≡ true))
owner_review_is_backed_example =
    Owner.owner_review_is_backed environment false 12 sha256 ready accepts_owner
