-- ===== src/Gate/Security.antt =====
-- security/policy.js and security/gate.js: the security profile of a project, and the reasons for
-- which the security gate rejects it. The environment's variables and whether a secret lease of the
-- project is still to be revoked are arguments.
use autonomous_dev_platform.Base.{
  Bool, true, false, not, ◌&&◌, ◌||◌, Option, none, some, String, List, [], ◌++◌, ◌==◌, any,
  or_object, if◌then◌else◌, when, truthy, or_else,
}
use autonomous_dev_platform.Project.{Project}
use autonomous_dev_platform.Project.Runs.{Aspect}
use autonomous_dev_platform.Project.Latest.{reads}

pub record Environment : Type 0 where
  pub security_profile : Option String  -- SECURITY_PROFILE, trimmed and in upper case
  pub demo_mode : Bool  -- DEMO_MODE

pub data SecurityProfile : Type 0 where
  development standard hardened : SecurityProfile

-- `value && SecurityProfile[value]`; names that every object inherits are not looked up.
abbrev pub named_profile : Option String → Option SecurityProfile
named_profile none = none
named_profile (some s) =
    if s == "DEVELOPMENT"
    then some development
    else if s == "STANDARD"
    then some standard
    else if s == "HARDENED"
    then some hardened
    else none

abbrev or_profile : Option SecurityProfile → SecurityProfile → SecurityProfile
or_profile none d = d
or_profile (some p) d = p

unfoldable pub resolve_security_profile : Environment → Project → SecurityProfile
resolve_security_profile env p = or_profile (named_profile p.security_profile) (
    or_profile (named_profile env.security_profile)
      (if env.demo_mode || p.demo then development else standard))

abbrev pub is_hardened_profile : SecurityProfile → Bool
is_hardened_profile development = false
is_hardened_profile standard = true
is_hardened_profile hardened = true

pub data SandboxMode : Type 0 where
  container_hardened local_development_unsafe mock : SandboxMode

-- `demo` is the caller's flag or `DEMO_MODE === 'true'`.
unfoldable pub resolve_required_sandbox_mode : Environment → Project → Bool → SandboxMode
unfolding resolve_security_profile
resolve_required_sandbox_mode env p demo =
    if demo || p.demo
    then mock
    else if is_hardened_profile (resolve_security_profile env p)
    then container_hardened
    else local_development_unsafe

-- `project.security || project.evidence.security`
unfoldable pub latest_security_evidence : Project → Option Aspect
latest_security_evidence p =
    or_object p.security (elim p.evidence [ none ↦ none | some e ↦ e.security ])

abbrev is_blocking : Option Bool → Bool
is_blocking none = false
is_blocking (some b) = b

abbrev not_waived : Option Bool → Bool
not_waived none = true
not_waived (some b) = b

unfoldable pub has_unresolved_sandbox_violations : Project → Bool
has_unresolved_sandbox_violations p =
    any
      (λ f.
        is_blocking f.blocking
        && (reads f.kind "SANDBOX_VIOLATION" || reads f.code "SANDBOX_VIOLATION"))
      p.security_findings

unfoldable pub has_blocking_secret_findings : Project → Bool
has_blocking_secret_findings p =
    any
      (λ f.
        not_waived f.blocking
        && (reads f.kind "SOURCE_SECRET"
            || reads f.confidence "high"
            || reads f.code "SECRET_DETECTED_IN_SOURCE"))
      (p.security_findings ++ p.secret_scan_findings)

abbrev provenance_mode : Project → Option String
provenance_mode p = elim p.sandbox_provenance [ none ↦ none | some s ↦ s.sandbox_mode ]

abbrev aspect_mode : Option Aspect → Option String
aspect_mode none = none
aspect_mode (some a) = a.sandbox_mode

abbrev aspect_hardened : Option Aspect → Bool
aspect_hardened none = false
aspect_hardened (some a) = a.hardened

abbrev provenance_hardened : Project → Bool
provenance_hardened p = elim p.sandbox_provenance [ none ↦ false | some s ↦ s.hardened ]

abbrev provenance_not_hardened : Project → Bool
provenance_not_hardened p = elim p.sandbox_provenance [ none ↦ false | some s ↦ not s.hardened ]

-- `!security || security.status === text`
abbrev pub missing_or : Option Aspect → String → Bool
missing_or none s = true
missing_or (some a) s = reads a.status s

-- The mode that the gate judges: the sandbox's own report, or the evidence's.
unfoldable pub judged_mode : Project → Option String
unfolding latest_security_evidence
judged_mode p = or_else (provenance_mode p) (aspect_mode (latest_security_evidence p))

unfoldable pub hardened_reasons : Project → List String
unfolding judged_mode
hardened_reasons p =
    let security = latest_security_evidence p in
    let mode = judged_mode p in
    when (missing_or security "FAIL") "required_security_failed"
    ++ when (missing_or security "NOT_RUN") "required_security_not_run"
    ++ when (truthy mode && not (reads mode "CONTAINER_HARDENED"))
        "required_sandbox_mode_unsatisfied"
    ++ when (provenance_not_hardened p) "required_sandbox_mode_unsatisfied"

-- The reasons that `applySecurityGate` adds.
unfoldable pub security_reasons : Environment → Bool → Project → List String
unfolding resolve_security_profile has_unresolved_sandbox_violations has_blocking_secret_findings
    hardened_reasons
security_reasons env pending p =
    if p.demo
    then []
    else when (has_unresolved_sandbox_violations p) "unresolved_sandbox_violation"
      ++ when (has_blocking_secret_findings p) "blocking_source_secret"
      ++ when pending "unreleased_secret_lease"
      ++ when
          (reads (judged_mode p) "LOCAL_DEVELOPMENT_UNSAFE"
            && (aspect_hardened (latest_security_evidence p) || provenance_hardened p))
          "unsafe_sandbox_masquerading_as_hardened"
      ++ (if is_hardened_profile (resolve_security_profile env p) then hardened_reasons p else [])
