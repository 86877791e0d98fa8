-- ===== src/Reports/Examples.antt =====
-- An agent that claims the platform's verification, with nothing to show for it.
use autonomous_dev_platform.Base.{true, false, Option, none, some, ◌≡◌, refl}
use autonomous_dev_platform.Project.Runs.{Evidence}
use autonomous_dev_platform.Gate.Canonical.{is_canonical_evidence}
use autonomous_dev_platform.Reports.{
  Raw, aspect_of, evidence_from_cursor_result, normalize_seen, checked_level, create_evidence,
  make_aspect, execution_of, has_platform_verified_aspect, made,
}
use autonomous_dev_platform.Reports.Normalized.{is_backed, evidence_is_canonical}

abbrev boast : Evidence
boast = record {
  verification_level = some "PLATFORM_VERIFIED";
  execution = some (aspect_of "PASS" "CURSOR_REPORTED");
  git = none;
  build = none;
  tests = none;
  lint = none;
  runtime = none;
  functional = none;
  accessibility = none;
  visual = none;
  security = none;
  provisioning = none;
}

abbrev answer : Option Raw
answer = some record { seen = boast; stop_reason = none; evidence = some boast }

boast_taken_down :
    (evidence_from_cursor_result answer false).verification_level ≡ some "SELF_REPORTED"
unfolding evidence_from_cursor_result is_canonical_evidence normalize_seen checked_level
    create_evidence made make_aspect execution_of has_platform_verified_aspect
boast_taken_down = refl

evidence_is_canonical_example :
    (is_canonical_evidence (some (evidence_from_cursor_result answer false)) ≡ true)
    × (is_backed (evidence_from_cursor_result answer false) ≡ true)
evidence_is_canonical_example = evidence_is_canonical answer false
