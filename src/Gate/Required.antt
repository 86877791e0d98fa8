-- ===== src/Gate/Required.antt =====
-- What the completion gate of orchestrator/gate.js requires of a project that is no demo.
use autonomous_dev_platform.Base.{
  ℕ, Bool, true, false, not, ◌&&◌, ◌||◌, Option, none, some, String, [], ◌∷◌, ◌++◌, ◌==◌, ◌≡◌, refl,
  sym, ◌∙◌, ap, arith, truthy, if◌then◌else◌, when, is_empty, is_empty-append, is_empty-when,
  is_empty-unless, eq_iff,
}
use autonomous_dev_platform.Project.{Project, Provisioning}
use autonomous_dev_platform.Project.Runs.{Evidence, VerificationRun}
use autonomous_dev_platform.Project.Latest.{
  reads, latest_cursor_run, latest_verification_run, run_iteration, is_existing_repository_project,
  repository_type, repository_baseline,
}
use autonomous_dev_platform.Gate.MockPolicy.{merged_evidence}
use autonomous_dev_platform.Gate.Security.{
  Environment, security_reasons, has_unresolved_sandbox_violations, has_blocking_secret_findings,
  is_hardened_profile, resolve_security_profile, judged_mode, latest_security_evidence,
  hardened_reasons, missing_or,
}
use autonomous_dev_platform.Gate.{
  status_of, platform_reasons, verification_reasons, check_reasons, policy_level, provisioning,
  provisioning_reasons,
}
use autonomous_dev_platform.Gate.Completion.{
  can_complete_autonomous_work, requires_platform_verification,
}
use autonomous_dev_platform.Gate.Observed.{unless_demo}
use autonomous_dev_platform.Gate.Sound.{accepted}

-- A check that the policy requires has run, and neither failed nor is its outcome unknown.
abbrev pub settled : Option String → Option String → Bool
settled level status =
    not (reads level "REQUIRED")
    || truthy status
      && not (reads status "FAIL")
      && not (reads status "NOT_RUN")
      && not (reads status "UNKNOWN")

check_settled :
    (level status : Option String) (failed not_run unknown : String)
    → is_empty (check_reasons level status failed not_run unknown) ≡ settled level status
check_settled level status failed not_run unknown = ground arith

-- A new project has been provisioned from a known baseline, or needs no provisioning.
abbrev pub provisioned : Project → Option Provisioning → Bool
provisioned p none = false
provisioned p (some v) =
    reads v.status "NOT_APPLICABLE"
    || reads v.status "PASS" && (truthy v.baseline_sha || truthy (repository_baseline p))

abbrev pub verified : Option Evidence → Option VerificationRun → Bool
verified e none = false
verified e (some v) =
    settled (policy_level (λ l. l.build) v) (status_of (λ x. x.build) e)
    && settled (policy_level (λ l. l.tests) v) (status_of (λ x. x.tests) e)
    && settled (policy_level (λ l. l.lint) v) (status_of (λ x. x.lint) e)

verification_lem :
    (e : Option Evidence) (v : Option VerificationRun)
    → is_empty (verification_reasons e v) ≡ verified e v
verification_lem e none = refl
verification_lem e (some v) = simp (is_empty-append, check_settled) refl

-- A text reads at most one of two that differ.
exclusive : (s : Option String) (a b : String) → (a == b) ≡ false → (reads s a && reads s b) ≡ false
exclusive none a b h = refl
exclusive (some s) a b h = ground (arith, eq_iff s a, eq_iff s b, eq_iff a b)

provisioning_outcome :
    (not_run failed pass not_applicable run known : Bool)
    → (not_run && pass) ≡ false
    → (not_run && not_applicable) ≡ false
    → (failed && pass) ≡ false
    → (failed && not_applicable) ≡ false
    → (not_applicable && pass) ≡ false
    → (is_empty (
          if not_run
          then "provisioning_not_run" ∷ []
          else if failed
          then "provisioning_failed" ∷ []
          else when (not pass && not not_applicable) "provisioning_not_run")
        && not (pass && not run && not known))
      ≡ (not_applicable || pass && (run || known))
provisioning_outcome a b c d e f h1 h2 h3 h4 h5 = ground arith

provisioning_lem :
    (p : Project) (v : Option Provisioning) → is_empty (provisioning_reasons p v) ≡ provisioned p v
provisioning_lem p none = refl
provisioning_lem p (some v) =
    simp (is_empty-append, is_empty-when)
      (provisioning_outcome (reads v.status "NOT_RUN") (reads v.status "FAIL")
        (reads v.status "PASS") (reads v.status "NOT_APPLICABLE") (truthy v.baseline_sha)
        (truthy (repository_baseline p)) (exclusive v.status "NOT_RUN" "PASS" refl)
        (exclusive v.status "NOT_RUN" "NOT_APPLICABLE" refl) (exclusive v.status "FAIL" "PASS" refl)
        (exclusive v.status "FAIL" "NOT_APPLICABLE" refl)
        (exclusive v.status "NOT_APPLICABLE" "PASS" refl))

platform_lem :
    (p : Project) (e : Option Evidence)
    → is_empty (platform_reasons p e) ≡ (
        verified e (latest_verification_run p (run_iteration p (latest_cursor_run p)))
        && not (reads (repository_type p) "UNPROVISIONED_NEW_PROJECT")
        && (is_existing_repository_project p || provisioned p (provisioning p)))
unfolding platform_reasons
platform_lem p e =
    simp (is_empty-append, is_empty-when, is_empty-unless, verification_lem, provisioning_lem)
      (refl)

three_parts : (a b c : Bool) → (a && not b && c) ≡ true → (a ≡ true) × (b ≡ false) × (c ≡ true)
three_parts a b c h = ground arith

secure_outcome :
    (demo violated leaked pending masks hardened failed missing known isolated soft : Bool)
    → is_empty (
        if demo
        then []
        else when violated "unresolved_sandbox_violation"
          ++ when leaked "blocking_source_secret"
          ++ when pending "unreleased_secret_lease"
          ++ when masks "unsafe_sandbox_masquerading_as_hardened"
          ++ (if hardened
              then when failed "required_security_failed"
                ++ when missing "required_security_not_run"
                ++ when (known && not isolated) "required_sandbox_mode_unsatisfied"
                ++ when soft "required_sandbox_mode_unsatisfied"
              else []))
      ≡ true
    → demo ≡ false
    → (violated ≡ false)
      × (leaked ≡ false)
      × (pending ≡ false)
      × ((not hardened || not failed && not missing && (not known || isolated)) ≡ true)
secure_outcome a b c d e f g h i j k q r = ground arith

-- The security evidence that a hardened profile asks for.
abbrev pub hardened_evidence : Project → Bool
hardened_evidence p =
    let security = latest_security_evidence p in
    let mode = judged_mode p in
    not (missing_or security "FAIL")
    && not (missing_or security "NOT_RUN")
    && (not (truthy mode) || reads mode "CONTAINER_HARDENED")

module _ (env : Environment) (pending : Bool) (max_iterations : ℕ) (p : Project) where
  -- A project that is no demo and passes the completion gate has a platform verification run, whose
  -- policy says which checks are required; each of these has, in the project's merged evidence and not
  -- in the run itself, a status that is neither FAIL, NOT_RUN nor UNKNOWN. The project's repository is
  -- not unprovisioned, and unless it is an existing repository, it was provisioned from a known
  -- baseline or its provisioning is NOT_APPLICABLE.
  pub required_checks_settled :
      (can_complete_autonomous_work env pending max_iterations p).ok ≡ true
      → p.demo ≡ false
      → (verified
            (merged_evidence p)
            (latest_verification_run p (run_iteration p (latest_cursor_run p)))
          ≡ true)
        × (reads (repository_type p) "UNPROVISIONED_NEW_PROJECT" ≡ false)
        × ((is_existing_repository_project p || provisioned p (provisioning p)) ≡ true)
  unfolding requires_platform_verification
  required_checks_settled h real =
      three_parts
        (verified (merged_evidence p)
          (latest_verification_run p (run_iteration p (latest_cursor_run p))))
        (reads (repository_type p) "UNPROVISIONED_NEW_PROJECT")
        (is_existing_repository_project p || provisioned p (provisioning p))
        (sym (platform_lem p (merged_evidence p))
          ∙ unless_demo (not p.demo) (platform_reasons p (merged_evidence p))
              (accepted env pending max_iterations p h).platform (ap not real))

  -- A project that is no demo and passes the completion gate has no unresolved sandbox violation, no
  -- blocking finding of a secret in its source and no secret lease left to revoke. Under a profile that
  -- the gate takes for a hardened one, it has security evidence that neither failed nor was left out, and
  -- the sandbox mode that the gate judges is CONTAINER_HARDENED where one is known.
  pub accepted_is_secure :
      (can_complete_autonomous_work env pending max_iterations p).ok ≡ true
      → p.demo ≡ false
      → (has_unresolved_sandbox_violations p ≡ false)
        × (has_blocking_secret_findings p ≡ false)
        × (pending ≡ false)
        × ((not (is_hardened_profile (resolve_security_profile env p)) || hardened_evidence p)
            ≡ true)
  unfolding security_reasons hardened_reasons
  accepted_is_secure h real =
      secure_outcome p.demo (has_unresolved_sandbox_violations p) (has_blocking_secret_findings p)
        pending _ (is_hardened_profile (resolve_security_profile env p))
        (missing_or (latest_security_evidence p) "FAIL")
        (missing_or (latest_security_evidence p) "NOT_RUN") (truthy (judged_mode p))
        (reads (judged_mode p) "CONTAINER_HARDENED") _
        (accepted env pending max_iterations p h).secure real
