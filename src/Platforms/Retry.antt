-- ===== src/Platforms/Retry.antt =====
-- `callProvider` of src/shared/observability.ts and the policies that it runs under. Waiting and
-- the notice of a retry change no state.
pub mod Attempts
use social_comments_service.Base.{
  Bool, Option, false, if◌then◌else◌, leb, ltb, min, none, not, some, suc, true, zero, ℕ, ◌*◌, ◌+◌,
  ◌-◌, ◌^◌,
}
use social_comments_service.Shared.Errors.{
  Thrown, provider_rate_limit_error, provider_unavailable_error, provider_unavailable_thrown,
  service,
}
use social_comments_service.Shared.Exec.{Exec, catch, err, throw}

pub record RetryPolicy : Type 0 where
  pub max_attempts : ℕ
  pub base_delay_ms : ℕ
  pub max_delay_ms : ℕ
  pub timeout_ms : ℕ
  pub should_retry : Thrown → Bool

-- A call of a provider: what it does, and how long it takes in a state.
pub record Operation (S A : Type 0) : Type 0 where
  pub run : Exec S A
  pub takes : S → ℕ

-- `backoffDelay`, for the attempts from 1 on.
unfoldable pub backoff_delay : ℕ → RetryPolicy → ℕ
backoff_delay attempt policy = min (policy.base_delay_ms * 2 ^ (attempt - 1)) policy.max_delay_ms

-- `error instanceof ProviderRateLimitError`, with its `retryAfterMs`.
abbrev pub rate_limit_of : Thrown → Option (Option ℕ)
rate_limit_of (service e) = elim e.class [ provider_rate_limit_error t ↦ some t | _ ↦ none ]
rate_limit_of _ = none

abbrev pub delay_of : Option (Option ℕ) → ℕ → RetryPolicy → Option ℕ
delay_of none attempt policy = some (backoff_delay attempt policy)
delay_of (some none) attempt policy = some (backoff_delay attempt policy)
delay_of (some (some retry_after_ms)) attempt policy =
    if leb retry_after_ms policy.max_delay_ms then some retry_after_ms else none

-- `retryDelayFor`
unfoldable pub retry_delay_for : Thrown → ℕ → RetryPolicy → Option ℕ
retry_delay_for error attempt policy =
    if leb policy.max_attempts attempt
    then none
    else if not (policy.should_retry error)
    then none
    else delay_of (rate_limit_of error) attempt policy

module _ {S A : Type 0} where
  -- `withTimeout`: the timer only ends the wait, so what the operation does is done all the same.
  unfoldable pub with_timeout : Operation S A → ℕ → Exec S A
  with_timeout operation timeout_ms s =
      let (r, s') = operation.run s in
      if ltb timeout_ms (operation.takes s) then (err provider_unavailable_thrown, s') else (r, s')

  -- The loop of `callProvider` at an attempt. The first number is the retries that are left; the
  -- policy grants no delay once there are none.
  unfoldable pub call_from : ℕ → ℕ → Operation S A → RetryPolicy → Exec S A
  call_from zero attempt operation policy = with_timeout operation policy.timeout_ms
  call_from (suc left) attempt operation policy =
      catch (with_timeout operation policy.timeout_ms) λ error.
        elim (retry_delay_for error attempt policy) [
          | none ↦ throw error
          | some delay_ms ↦ call_from left (attempt + 1) operation policy
        ]

  unfoldable pub call_provider : Operation S A → RetryPolicy → Exec S A
  call_provider operation policy = call_from (policy.max_attempts - 1) 1 operation policy

-- `shouldRetry` of `providerRetryPolicy`.
abbrev pub is_retriable : Thrown → Bool
is_retriable (service e) = elim e.class [
  | provider_unavailable_error ↦ true
  | provider_rate_limit_error t ↦ true
  | _ ↦ false
]
is_retriable _ = false

abbrev pub provider_retry_policy : RetryPolicy
provider_retry_policy = record {
  max_attempts = 3;
  base_delay_ms = 100;
  max_delay_ms = 5000;
  timeout_ms = 20000;
  should_retry = is_retriable;
}

pub record ProviderRetryPolicies : Type 0 where
  pub read : RetryPolicy
  pub write : RetryPolicy

-- `providerPolicies`
unfoldable pub provider_policies : RetryPolicy → ProviderRetryPolicies
provider_policies read = record { read = read; write = record read { should_retry = λ e. false } }
