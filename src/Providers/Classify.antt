-- ===== src/Providers/Classify.antt =====
-- providers/resilience.js: what kind of failure an error of a provider is.
use Prim.Native.String.{◌++◌}
use autonomous_dev_platform.Base.{
  decimal, ℕ, Bool, true, false, ◌||◌, Option, none, some, String, [], ◌∷◌, ◌==◌, leb, eqb,
  if◌then◌else◌, ignore_case, contains_any,
}
use autonomous_dev_platform.Errors.{
  Code, ErrorCode, known, other, not_false, Thrown, platform_error,
}

pub data ProviderStatus : Type 0 where
  success timeout rate_limited invalid_response auth_failure provider_error skipped : ProviderStatus

-- What is read of an error that a call of a provider throws.
pub record ProviderError : Type 0 where
  pub name : Option String
  pub code : Option Code
  pub retryable : Option Bool
  pub http_status : Option ℕ
  pub message : String

pub record ProviderFailure : Type 0 where
  pub status : ProviderStatus
  pub retryable : Bool
  pub code : Code

abbrev has_code : ErrorCode → Option Code → Bool
has_code ErrorCode.provider_timeout (some (known ErrorCode.provider_timeout)) = true
has_code ErrorCode.cursor_timeout (some (known ErrorCode.cursor_timeout)) = true
has_code ErrorCode.auth_failure (some (known ErrorCode.auth_failure)) = true
has_code ErrorCode.rate_limited (some (known ErrorCode.rate_limited)) = true
has_code ErrorCode.invalid_response (some (known ErrorCode.invalid_response)) = true
has_code _ _ = false

abbrev is_named : String → Option String → Bool
is_named text none = false
is_named text (some name) = name == text

abbrev has_status : ℕ → Option ℕ → Bool
has_status n none = false
has_status n (some s) = eqb s n

-- `status >= 500`
abbrev is_server_error : Option ℕ → Bool
is_server_error none = false
is_server_error (some s) = leb 500 s

unfoldable pub is_timeout_error : ProviderError → Bool
is_timeout_error e =
    is_named "TimeoutError" e.name
    || (is_named "AbortError" e.name
        || (has_code ErrorCode.provider_timeout e.code || has_code ErrorCode.cursor_timeout e.code))

-- `error?.code || ErrorCode.PROVIDER_FAILURE`
abbrev or_provider_failure : Option Code → Code
or_provider_failure none = known ErrorCode.provider_failure
or_provider_failure (some (known c)) = known c
or_provider_failure (some (other s)) = if s == "" then known ErrorCode.provider_failure else other s

abbrev failure : ProviderStatus → Bool → ErrorCode → ProviderFailure
failure status retryable code = record { status = status; retryable = retryable; code = known code }

unfoldable pub classify_provider_error : ProviderError → ProviderFailure
unfolding is_timeout_error
classify_provider_error e =
    if has_code ErrorCode.provider_timeout e.code || is_timeout_error e
    then failure timeout true ErrorCode.provider_timeout
    else if has_code ErrorCode.auth_failure e.code
        || (has_status 401 e.http_status
            || (has_status 403 e.http_status
                || contains_any ignore_case
                    ("invalid api key" ∷ ("unauthorized" ∷ ("forbidden" ∷ []))) e.message))
    then failure auth_failure false ErrorCode.auth_failure
    else if has_code ErrorCode.rate_limited e.code || has_status 429 e.http_status
    then failure rate_limited true ErrorCode.rate_limited
    else if has_code ErrorCode.invalid_response e.code
    then failure invalid_response false ErrorCode.invalid_response
    else if is_server_error e.http_status
        || contains_any ignore_case
            ("econnreset"
              ∷ ("fetch failed"
                  ∷ ("network"
                      ∷ ("socket" ∷ ("temporarily unavailable" ∷ ("service unavailable" ∷ []))))))
            e.message
    then failure provider_error true ErrorCode.provider_failure
    else record {
      status = provider_error;
      retryable = not_false e.retryable;
      code = or_provider_failure e.code;
    }

-- The error that a response of a provider is thrown as.
unfoldable pub throw_http_error : String → ℕ → Thrown
unfolding classify_provider_error platform_error decimal
throw_http_error provider status =
    let classified = classify_provider_error record {
      name = none;
      code = none;
      retryable = none;
      http_status = some status;
      message = provider ++ (" " ++ decimal status);
    } in
    platform_error (some classified.code) (some "PROVIDER") (some classified.retryable)
