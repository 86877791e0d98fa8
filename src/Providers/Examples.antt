-- ===== src/Providers/Examples.antt =====
-- A provider that is busy at first.
use autonomous_dev_platform.Base.{ℕ, zero, suc, none, some, String, ◌≡◌, refl, [], ◌∷◌}
use autonomous_dev_platform.Providers.Classify.{
  ProviderError, classify_provider_error, is_timeout_error,
}
use autonomous_dev_platform.Providers.Retry.{
  Attempt, answered, failed, default_policy, with_retry, attempt_from, wait_after,
}
use autonomous_dev_platform.Providers.Attempts.{StopsAt, with_retry_terminates}

abbrev busy : ProviderError
busy = record {
  name = none;
  code = none;
  retryable = none;
  http_status = some 429;
  message = "OPENAI 429";
}

abbrev busy_at_first : ℕ → Attempt String
busy_at_first zero = failed busy
busy_at_first (suc zero) = failed busy
busy_at_first (suc (suc n)) = answered "yes"

busy_waits : (with_retry busy_at_first default_policy (λ n. 7)).waits ≡ (407 ∷ [])
unfolding with_retry attempt_from wait_after classify_provider_error is_timeout_error
busy_waits = refl

with_retry_terminates_example :
    (k : ℕ) × StopsAt busy_at_first default_policy 0 k
      (with_retry busy_at_first default_policy (λ n. 7))
with_retry_terminates_example = with_retry_terminates busy_at_first default_policy (λ n. 7)
