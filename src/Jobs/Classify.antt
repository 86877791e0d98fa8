-- ===== src/Jobs/Classify.antt =====
-- jobs/classify.js: which errors end a job, and how long a retry waits.

pub mod Delay
use autonomous_dev_platform.Base.{
  ℕ, ◌-◌, ◌*◌, ◌^◌, min, Bool, true, false, not, ◌&&◌, ◌||◌, ◌==◌, if◌then◌else◌, ◌≡◌, arith,
}
use autonomous_dev_platform.Errors.{
  ErrorCode, Code, known, other, Thrown, code_or_unexpected, not_false,
}

-- `TERMINAL.has(code)`
abbrev pub is_terminal : Code → Bool
is_terminal (known ErrorCode.auth_failure) = true
is_terminal (known ErrorCode.retry_not_eligible) = true
is_terminal (known ErrorCode.invalid_state_transition) = true
is_terminal (known ErrorCode.max_iterations_reached) = true
is_terminal (known ErrorCode.sandbox_violation) = true
is_terminal (known ErrorCode.secret_access_denied) = true
is_terminal (known ErrorCode.authz_denied) = true
is_terminal (known ErrorCode.secret_detected_in_source) = true
is_terminal (known ErrorCode.job_dead_lettered) = true
is_terminal (known _) = false
is_terminal (other s) = s == "INVALID_PROJECT_PATH"

-- `DELAYED.has(code)`
abbrev pub is_delayed : Code → Bool
is_delayed (known ErrorCode.provider_timeout) = true
is_delayed (known ErrorCode.rate_limited) = true
is_delayed (known ErrorCode.provider_failure) = true
is_delayed (known ErrorCode.cursor_timeout) = true
is_delayed (known ErrorCode.verification_preflight_failed) = true
is_delayed (known ErrorCode.provisioning_infrastructure_unavailable) = true
is_delayed (known ErrorCode.ios_provisioning_unavailable) = true
is_delayed (known ErrorCode.sandbox_infrastructure_unavailable) = true
is_delayed (known ErrorCode.all_providers_failed) = true
is_delayed (known ErrorCode.insufficient_council) = true
is_delayed (known ErrorCode.database_unavailable) = true
is_delayed (known _) = false
is_delayed (other s) = false

pub record Classified : Type 0 where
  pub retryable : Bool
  pub delay : Bool
  pub code : Code

unfoldable pub classify_job_error : Thrown → Classified
classify_job_error error =
    let code = code_or_unexpected error.code in
    if is_terminal code || not (not_false error.retryable) && not (is_delayed code)
    then record { retryable = false; delay = false; code = code }
    else if not (not_false error.retryable) && is_terminal code
    then record { retryable = false; delay = false; code = code }
    else record {
      retryable = true;
      delay = is_delayed code || not_false error.retryable;
      code = code;
    }

-- `2 ** Math.max(0, attempts - 1)`: subtraction on ℕ stops at 0.
unfoldable pub retry_delay_ms : ℕ → ℕ → ℕ → ℕ
retry_delay_ms attempts base_ms max_ms = min max_ms (base_ms * 2 ^ (attempts - 1))

-- An error is not retried exactly when its code is terminal, or it says that it is not retryable
-- and its code is none that always waits. A retried error is always delayed.
classify_job_error_retryable :
    (error : Thrown)
    → let code = code_or_unexpected error.code in
      ((classify_job_error error).retryable
        ≡ not (is_terminal code) && (not_false error.retryable || is_delayed code))
      × ((classify_job_error error).delay ≡ (classify_job_error error).retryable)
      × ((classify_job_error error).code ≡ code)
unfolding classify_job_error
classify_job_error_retryable error = ground arith
