-- ===== src/Providers/Retry.antt =====
-- providers/resilience.js: a call that is repeated while its failures may pass. The call answers an
-- attempt's number, and `jitter` is the random part of the wait after an attempt. `maxRetries` is not
-- negative: the loop makes an attempt. Fuel `maxRetries + 1` is enough for it.
use autonomous_dev_platform.Base.{
  ℕ, zero, suc, ◌+◌, ◌*◌, ◌^◌, Bool, not, ◌||◌, Option, none, some, List, [], ◌∷◌, min, eqb,
  if◌then◌else◌,
}
use autonomous_dev_platform.Providers.Classify.{
  ProviderError, ProviderStatus, classify_provider_error,
}

-- What an attempt comes to: an answer or an error.
pub data Attempt {ℓ} (A : Type ℓ) : Type ℓ where
  answered : A → Attempt A
  failed : ProviderError → Attempt A

-- How the whole call ends. It is `spent` where the fuel ends before the loop does.
pub data Ending {ℓ} (A : Type ℓ) : Type ℓ where
  returned : A → Ending A
  thrown : ProviderError → ProviderStatus → Ending A
  spent : Ending A

pub record Called {ℓ} (A : Type ℓ) : Type ℓ where
  pub ending : Ending A
  pub attempts : ℕ
  pub waits : List ℕ

pub record RetryPolicy : Type 0 where
  pub max_retries : ℕ
  pub base_ms : ℕ
  pub max_ms : ℕ

-- The overrides, over what the environment says.
unfoldable pub create_retry_policy : Option ℕ → Option ℕ → Option ℕ → RetryPolicy → RetryPolicy
create_retry_policy max_retries base_ms max_ms env = record {
  max_retries = elim max_retries [ none ↦ env.max_retries | some n ↦ n ];
  base_ms = elim base_ms [ none ↦ env.base_ms | some n ↦ n ];
  max_ms = elim max_ms [ none ↦ env.max_ms | some n ↦ n ];
}

-- The settings with no environment variable set.
abbrev pub default_policy : RetryPolicy
default_policy = record { max_retries = 2; base_ms = 400; max_ms = 4000 }

unfoldable pub wait_after : RetryPolicy → (ℕ → ℕ) → ℕ → ℕ
wait_after policy jitter attempt = min policy.max_ms (policy.base_ms * 2 ^ attempt) + jitter attempt

-- `!classified.retryable || attempt === maxRetries`
abbrev pub gives_up : RetryPolicy → ℕ → ProviderError → Bool
gives_up policy attempt e =
    not (classify_provider_error e).retryable || eqb attempt policy.max_retries

abbrev pub after_wait {ℓ} : {A : Type ℓ} → ℕ → Called A → Called A
after_wait wait c = record { ending = c.ending; attempts = c.attempts; waits = wait ∷ c.waits }

abbrev pub ended {ℓ} : {A : Type ℓ} → Ending A → ℕ → Called A
ended e n = record { ending = e; attempts = n; waits = [] }

abbrev pub after_attempt {ℓ} : {A : Type ℓ} → RetryPolicy → ℕ → ℕ → Attempt A → Called A → Called A
after_attempt policy wait attempt (answered a) rest = ended (returned a) (suc attempt)
after_attempt policy wait attempt (failed e) rest =
    if gives_up policy attempt e
    then ended (thrown e (classify_provider_error e).status) (suc attempt)
    else after_wait wait rest

module _ {ℓ} {A : Type ℓ} (operation : ℕ → Attempt A) (policy : RetryPolicy) (jitter : ℕ → ℕ) where
  unfoldable pub attempt_from : ℕ → ℕ → Called A
  unfolding wait_after classify_provider_error
  attempt_from zero attempt = ended spent attempt
  attempt_from (suc fuel) attempt =
      let rest = attempt_from fuel (suc attempt) in
      after_attempt policy (wait_after policy jitter attempt) attempt (operation (suc attempt)) rest

  unfoldable pub with_retry : Called A
  unfolding attempt_from
  with_retry = attempt_from (suc policy.max_retries) 0
