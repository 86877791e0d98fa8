-- ===== src/Gate/Canonical.antt =====
-- orchestrator/evidence.js: the form that evidence has when the platform itself made it, and how an
-- aspect of it is judged.
use autonomous_dev_platform.Base.{Bool, false, ◌&&◌, ◌||◌, Option, none, some, String}
use autonomous_dev_platform.Project.Runs.{Evidence}
use autonomous_dev_platform.Project.Latest.{reads}

-- `STATUSES.has(status)`
abbrev pub is_status : Option String → Bool
is_status s =
    reads s "PASS"
    || reads s "FAIL"
    || reads s "NOT_RUN"
    || reads s "NOT_APPLICABLE"
    || reads s "UNKNOWN"

abbrev pub is_provenance : Option String → Bool
is_provenance s =
    reads s "CURSOR_REPORTED"
    || reads s "PLATFORM_VERIFIED"
    || reads s "AI_REVIEWED"
    || reads s "MOCK"

abbrev pub is_level : Option String → Bool
is_level s = reads s "MOCK" || reads s "SELF_REPORTED" || reads s "PLATFORM_VERIFIED"

unfoldable pub is_canonical_evidence : Option Evidence → Bool
is_canonical_evidence none = false
is_canonical_evidence (some e) = is_level e.verification_level && (elim e.execution [
  | none ↦ false
  | some a ↦ is_status a.status && is_provenance a.provenance
])
