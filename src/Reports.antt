-- ===== src/Reports.antt =====
-- orchestrator/evidence.js: the evidence that the platform makes of what it saw, or of what the agent
-- reports. The texts that explain an aspect, and the artifacts, warnings and errors, are left out.
pub mod Normalized
mod Examples
use autonomous_dev_platform.Base.{
  Bool, true, false, not, ◌&&◌, ◌||◌, Option, none, some, String, [], ◌∷◌, ◌==◌, if◌then◌else◌,
  is_some, or_object, includes,
}
use autonomous_dev_platform.Project.Runs.{Aspect, Evidence}
use autonomous_dev_platform.Project.Latest.{reads}
use autonomous_dev_platform.Gate.Canonical.{
  is_status, is_provenance, is_level, is_canonical_evidence,
}

abbrev pub aspect_of : String → String → Aspect
aspect_of status provenance = record {
  status = some status;
  provenance = some provenance;
  mock = false;
  sandbox_mode = none;
  hardened = false;
}

-- `value ?? default`, where the value is one of the known ones, or else `unknown`.
abbrev pub known_or : (Option String → Bool) → Option String → String → String → String
known_or is_known none default unknown = default
known_or is_known (some s) default unknown = if is_known (some s) then s else unknown

-- `aspect(input)`
unfoldable pub make_aspect : Option Aspect → Aspect
make_aspect none = aspect_of "NOT_RUN" "CURSOR_REPORTED"
make_aspect (some a) =
    aspect_of (known_or is_status a.status "NOT_RUN" "UNKNOWN")
      (known_or is_provenance a.provenance "CURSOR_REPORTED" "CURSOR_REPORTED")

unfoldable pub provenance_for_level : String → String
provenance_for_level level =
    if level == "MOCK"
    then "MOCK"
    else if level == "PLATFORM_VERIFIED"
    then "PLATFORM_VERIFIED"
    else "CURSOR_REPORTED"

abbrev pub made : Option Aspect → Option Aspect
unfolding make_aspect
made a = some (make_aspect a)

-- `input.execution || { status: UNKNOWN, provenance: provenanceForLevel(verificationLevel) }`
unfoldable pub execution_of : Evidence → String → Option Aspect
unfolding provenance_for_level
execution_of e level =
    or_object e.execution (some (aspect_of "UNKNOWN" (provenance_for_level level)))

unfoldable pub create_evidence : Evidence → Evidence
unfolding made execution_of
create_evidence e =
    let level = known_or is_level e.verification_level "SELF_REPORTED" "SELF_REPORTED" in
    record {
      verification_level = some level;
      execution = made (execution_of e level);
      git = made e.git;
      build = made e.build;
      tests = made e.tests;
      lint = made e.lint;
      runtime = made e.runtime;
      functional = made e.functional;
      accessibility = made e.accessibility;
      visual = made e.visual;
      security = made e.security;
      provisioning = made e.provisioning;
    }

abbrev pub mock_aspect : String → Option Aspect
mock_aspect status = some (aspect_of status "MOCK")

-- The evidence of a demonstration.
unfoldable pub mock_evidence : Evidence
unfolding create_evidence
mock_evidence = create_evidence record {
  verification_level = some "MOCK";
  execution = mock_aspect "PASS";
  git = mock_aspect "NOT_RUN";
  build = mock_aspect "NOT_RUN";
  tests = mock_aspect "NOT_RUN";
  lint = mock_aspect "NOT_RUN";
  runtime = mock_aspect "NOT_RUN";
  functional = mock_aspect "NOT_RUN";
  accessibility = mock_aspect "NOT_RUN";
  visual = mock_aspect "NOT_RUN";
  security = mock_aspect "NOT_RUN";
  provisioning = mock_aspect "NOT_APPLICABLE";
}

-- What comes back from the agent: seen as evidence, its reason to stop, and the evidence within it.
pub record Raw : Type 0 where
  pub seen : Evidence
  pub stop_reason : Option String
  pub evidence : Option Evidence

abbrev pub fail_stop : Option String → Bool
fail_stop none = false
fail_stop (some reason) =
    includes reason ("ERROR" ∷ ("CANCELLED" ∷ ("EXPIRED" ∷ ("error" ∷ ("cancelled" ∷ [])))))

abbrev pub has_platform : Option Aspect → Bool
has_platform none = false
has_platform (some a) = reads a.provenance "PLATFORM_VERIFIED"

unfoldable pub has_platform_verified_aspect : Evidence → Bool
has_platform_verified_aspect e =
    has_platform e.execution
    || (has_platform e.git
        || (has_platform e.build
            || (has_platform e.tests
                || (has_platform e.lint
                    || (has_platform e.runtime
                        || (has_platform e.functional
                            || (has_platform e.accessibility || has_platform e.security)))))))

abbrev pub downgraded : Evidence → Evidence
downgraded e = record e { verification_level = some "SELF_REPORTED" }

-- Canonical evidence that claims the platform's verification, and shows no aspect of it, is taken down.
unfoldable pub checked_level : Evidence → Evidence
unfolding has_platform_verified_aspect
checked_level e =
    if reads e.verification_level "PLATFORM_VERIFIED" && not (has_platform_verified_aspect e)
    then downgraded e
    else e

abbrev pub reported : String → Option Aspect
reported status = some (aspect_of status "CURSOR_REPORTED")

abbrev reports_git : Option Evidence → Bool
reports_git none = false
reports_git (some e) = is_some e.git

abbrev pub execution_status : Option Raw → String
execution_status none = "UNKNOWN"
execution_status (some raw) = if fail_stop raw.stop_reason then "FAIL" else "PASS"

abbrev pub git_status : Option Raw → String
git_status none = "NOT_RUN"
git_status (some raw) = if reports_git raw.evidence then "UNKNOWN" else "NOT_RUN"

abbrev pub self_reported : Option Raw → Evidence
self_reported raw = record {
  verification_level = some "SELF_REPORTED";
  execution = reported (execution_status raw);
  git = reported (git_status raw);
  build = reported "NOT_RUN";
  tests = reported "NOT_RUN";
  lint = reported "NOT_RUN";
  runtime = reported "NOT_RUN";
  functional = none;
  accessibility = none;
  visual = reported "NOT_RUN";
  security = none;
  provisioning = none;
}

abbrev pub seen_as : Option Raw → Option Evidence
seen_as none = none
seen_as (some raw) = some raw.seen

unfoldable pub normalize_seen : Option Raw → Option Evidence → Evidence
unfolding create_evidence checked_level is_canonical_evidence
normalize_seen raw none = create_evidence (self_reported raw)
normalize_seen raw (some e) =
    if is_canonical_evidence (some e)
    then checked_level (create_evidence e)
    else create_evidence (self_reported raw)

unfoldable pub normalize_evidence : Option Raw → Bool → Evidence
unfolding mock_evidence normalize_seen
normalize_evidence raw demo = if demo then mock_evidence else normalize_seen raw (seen_as raw)

abbrev pub inner_evidence : Option Raw → Option Evidence
inner_evidence none = none
inner_evidence (some raw) = raw.evidence

abbrev pub is_mock_level : Option Evidence → Bool
is_mock_level none = false
is_mock_level (some e) = reads e.verification_level "MOCK"

unfoldable pub evidence_from_cursor_result : Option Raw → Bool → Evidence
unfolding normalize_evidence mock_evidence is_canonical_evidence normalize_seen
evidence_from_cursor_result result demo =
    let inner = inner_evidence result in
    if demo || is_mock_level inner
    then mock_evidence
    else if is_canonical_evidence inner
    then normalize_seen none inner
    else normalize_evidence result demo

-- How far an aspect is from a claim of the agent.
pub data AspectMaturity : Type 0 where
  mock not_run not_applicable self_report platform_verified ai_reviewed : AspectMaturity

pub record VerificationAspects : Type 0 where
  pub git : AspectMaturity
  pub technical : AspectMaturity
  pub runtime : AspectMaturity
  pub functional : AspectMaturity
  pub accessibility : AspectMaturity
  pub visual : AspectMaturity
  pub security : AspectMaturity
  pub provisioning : AspectMaturity

unfoldable pub maturity : Option String → Option Aspect → AspectMaturity → AspectMaturity
maturity level none fallback = fallback
maturity level (some a) fallback =
    if reads a.status "NOT_APPLICABLE"
    then not_applicable
    else if reads a.provenance "MOCK" || reads level "MOCK"
    then mock
    else if reads a.status "NOT_RUN"
    then not_run
    else if reads a.provenance "PLATFORM_VERIFIED"
    then platform_verified
    else if reads a.provenance "AI_REVIEWED"
    then ai_reviewed
    else if reads a.provenance "CURSOR_REPORTED"
    then self_report
    else fallback

abbrev is_technical : AspectMaturity → Bool
is_technical platform_verified = true
is_technical self_report = true
is_technical mock = true
is_technical _ = false

unfoldable pub derive_verification_aspects : Evidence → VerificationAspects
unfolding maturity
derive_verification_aspects e =
    let of = λ (a : Option Aspect). maturity e.verification_level a not_run in
    record {
      git = of e.git;
      technical =
          if is_technical (of e.build)
          then of e.build
          else if is_technical (of e.tests)
          then of e.tests
          else if is_technical (of e.lint)
          then of e.lint
          else of e.build;
      runtime = of e.runtime;
      functional = of (or_object e.functional e.runtime);
      accessibility = of e.accessibility;
      visual = of e.visual;
      security = of e.security;
      provisioning = maturity e.verification_level e.provisioning not_applicable;
    }
