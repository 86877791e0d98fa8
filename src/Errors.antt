-- ===== src/Errors.antt =====
-- orchestrator/errors.js: error codes, and the record that an error becomes. The message, the
-- details and the time of an error decide nothing, and are left out.
use autonomous_dev_platform.Base.{
  Bool, true, false, Option, none, some, String, ◌==◌, if◌then◌else◌, or_else,
}

pub data ErrorCode : Type 0 where
  provider_timeout provider_failure all_providers_failed auth_failure rate_limited : ErrorCode
  invalid_response insufficient_council invalid_specification chair_failure : ErrorCode
  cursor_timeout cursor_execution_failed cursor_executable_unavailable : ErrorCode
  cursor_auth_failure mock_backend_not_allowed recovery_failed : ErrorCode
  max_iterations_reached invalid_state_transition completion_gate_rejected : ErrorCode
  retry_not_eligible database_unavailable job_lease_lost job_dead_lettered : ErrorCode
  workspace_unsafe git_policy_violation cursor_preflight_failed secret_file_blocked : ErrorCode
  verification_failed verification_preflight_failed verification_command_invalid : ErrorCode
  missing_project_configuration runtime_start_failed runtime_readiness_timeout : ErrorCode
  runtime_crash runtime_process_exited scenario_failed browser_error network_failure : ErrorCode
  accessibility_failure screenshot_capture_failed visual_review_failed : ErrorCode
  visual_blocking_finding device_boot_failed app_install_failed app_launch_failed : ErrorCode
  emulator_unavailable ios_runtime_infrastructure_unavailable stale_runtime_evidence : ErrorCode
  missing_runtime_test_configuration vision_unsupported unexpected_error : ErrorCode
  provisioning_failed provisioning_plan_invalid provisioning_identity_invalid : ErrorCode
  provisioning_validation_failed provisioning_command_invalid : ErrorCode
  provisioning_unsupported provisioning_infrastructure_unavailable : ErrorCode
  provisioning_starter_invalid ios_provisioning_unavailable : ErrorCode
  sandbox_infrastructure_unavailable sandbox_violation sandbox_resource_limit : ErrorCode
  secret_access_denied authz_denied secret_detected_in_source network_policy_denied : ErrorCode
  delivery_preparation_failed delivery_lineage_invalid stale_delivery : ErrorCode
  owner_decision_conflict invalid_owner_feedback : ErrorCode

-- `error.code` of any error: one of `ErrorCode`, or a text that is none of them.
pub data Code : Type 0 where
  known : ErrorCode → Code
  other : String → Code

-- What the platform reads of a thrown value. A value that is no `PlatformError` may lack each field.
pub record Thrown : Type 0 where
  pub is_platform : Bool
  pub code : Option Code
  pub phase : Option String
  pub retryable : Option Bool

-- `toRecord()` of a `PlatformError`, and the result of `toErrorRecord`.
pub record ErrorRecord : Type 0 where
  pub code : Code
  pub phase : Option String
  pub retryable : Bool

-- `code || ErrorCode.UNEXPECTED_ERROR`
abbrev pub code_or_unexpected : Option Code → Code
code_or_unexpected none = known unexpected_error
code_or_unexpected (some (known c)) = known c
code_or_unexpected (some (other s)) = if s == "" then known unexpected_error else other s

-- `retryable !== false`
abbrev pub not_false : Option Bool → Bool
not_false none = true
not_false (some b) = b

-- `new PlatformError({ code, phase, retryable })`
unfoldable pub platform_error : Option Code → Option String → Option Bool → Thrown
platform_error code phase retryable = record {
  is_platform = true;
  code = some (code_or_unexpected code);
  phase = phase;
  retryable = some (not_false retryable);
}

-- A code that is in `Object.values(ErrorCode)`, or UNEXPECTED_ERROR.
abbrev recognised : Option Code → Code
recognised (some (known c)) = known c
recognised (some (other s)) = known unexpected_error
recognised none = known unexpected_error

unfoldable pub to_error_record : Thrown → Option String → ErrorRecord
to_error_record error phase =
    if error.is_platform
    then record {
      code = code_or_unexpected error.code;
      phase = or_else error.phase phase;
      retryable = not_false error.retryable;
    }
    else record {
      code = recognised error.code;
      phase = or_else phase (or_else error.phase none);
      retryable = not_false error.retryable;
    }

-- A record read back as a thrown value, as `queue.fail` receives it.
abbrev pub of_record : ErrorRecord → Thrown
of_record r = record {
  is_platform = false;
  code = some r.code;
  phase = r.phase;
  retryable = some r.retryable;
}
