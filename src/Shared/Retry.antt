-- ===== src/Shared/Retry.antt =====
-- shared/retry.py. The jitter, a random number or a hash, is a parameter. An exception of the
-- operation is either one of the types `retry_on` or another one.
pub mod Attempts
pub mod Delays
use mrrik_ai_bot.Prelude.{
  ℕ, zero, suc, ◌+◌, ◌^◌, Bool, true, false, ◌&&◌, ◌||◌, String, Option, none, some, Result, ok,
  err, ◌>>=◌, ◌>>◌, raise_if, ltb, ◌==◌, if◌then◌else◌,
}
use mrrik_ai_bot.Decimal.{Decimal, of_ℕ, fix, add, mul, le, lt, eq, max_of, min_of}

pub record RetryPolicy : Type 0 where
  pub max_attempts : ℕ
  pub base_delay_sec : Decimal
  pub max_delay_sec : Decimal
  pub jitter_pct : Decimal

-- `_validate_policy`
unfoldable pub validate_policy : RetryPolicy → Result (Unit {0})
validate_policy policy = do
  raise_if (policy.max_attempts == 0) "max_attempts must be at least 1"
  raise_if (lt policy.base_delay_sec (of_ℕ 0) || lt policy.max_delay_sec (of_ℕ 0))
      "retry delays must be non-negative"
  raise_if (lt policy.max_delay_sec policy.base_delay_sec)
      "base_delay_sec must not exceed max_delay_sec"
  raise_if (lt policy.jitter_pct (of_ℕ 0) || lt (of_ℕ 1) policy.jitter_pct)
      "jitter_pct must be between 0 and 1"

-- `policy.base_delay_sec * (Decimal(2) ** attempt_index)`, no longer than the longest delay.
abbrev pub capped_delay : RetryPolicy → ℕ → Decimal
capped_delay policy attempt_index =
    min_of (mul policy.base_delay_sec (fix (of_ℕ (2 ^ attempt_index)))) policy.max_delay_sec

abbrev pub jittered_delay : RetryPolicy → Decimal → Decimal → Decimal
jittered_delay policy delay unit =
    min_of (max_of (mul delay (add (of_ℕ 1) (mul policy.jitter_pct unit))) (of_ℕ 0))
      policy.max_delay_sec

-- `compute_backoff_delay(attempt_index, policy, jitter_seed)`
unfoldable pub compute_backoff_delay : (ℕ → Decimal) → ℕ → RetryPolicy → Result Decimal
compute_backoff_delay jitter_unit attempt_index policy = do
  validate_policy policy
  let delay = capped_delay policy attempt_index
  if eq delay (of_ℕ 0) || eq policy.jitter_pct (of_ℕ 0)
      then ok delay
      else ok (jittered_delay policy delay (jitter_unit attempt_index))

-- How an attempt of the operation ends.
pub data Attempt (A : Type 0) : Type 0 where
  returned : A → Attempt A
  retryable : String → Attempt A
  raised : String → Attempt A

-- How the retries end: with a value, with `RetryExhaustedError`, or with another exception.
pub data Retried (A : Type 0) : Type 0 where
  result : A → Retried A
  exhausted : Retried A
  failed : String → Retried A

module _ {S A : Type 0} (operation : S → Attempt A × S) (sleep : Decimal → S → S)
    (jitter_unit : ℕ → Decimal) (policy : RetryPolicy) where
  -- What follows a delay that has been worked out.
  abbrev pub after_delay : (S → Retried A × S) → Result Decimal → S → Retried A × S
  after_delay rest (ok delay) s = rest (sleep delay s)
  after_delay rest (err e) s = (failed e, s)

  -- What follows an attempt, with the number of attempts that are left.
  abbrev pub after_attempt : (S → Retried A × S) → ℕ → ℕ → Attempt A × S → Retried A × S
  after_attempt rest left attempt_index (returned a, s) = (result a, s)
  after_attempt rest left attempt_index (raised e, s) = (failed e, s)
  after_attempt rest zero attempt_index (retryable e, s) = (exhausted, s)
  after_attempt rest (suc left) attempt_index (retryable e, s) =
      after_delay rest (compute_backoff_delay jitter_unit attempt_index policy) s

  -- `for attempt_index in range(policy.max_attempts)`, with the number of attempts that are left.
  unfoldable pub retry_loop : ℕ → ℕ → S → Retried A × S
  retry_loop zero attempt_index s = (failed "retry loop terminated unexpectedly", s)
  retry_loop (suc left) attempt_index s =
      after_attempt (retry_loop left (suc attempt_index)) left attempt_index (operation s)

  abbrev pub validated : Result (Unit {0}) → (S → Retried A × S) → S → Retried A × S
  validated (err e) rest s = (failed e, s)
  validated (ok _) rest s = rest s

  -- `retry_async`, for at least one type of exception to retry on.
  unfoldable pub retry_async : S → Retried A × S
  retry_async = validated (validate_policy policy) (retry_loop policy.max_attempts 0)
