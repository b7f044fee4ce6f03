-- ===== src/Tests/Retry.antt =====
-- shared/retry.py on an operation that never succeeds.
use mrrik_ai_bot.Prelude.{ℕ, suc, ◌≡◌, refl, true, ok}
use mrrik_ai_bot.Decimal.{Decimal, of_ℕ, decimal, le, lt, eq, mul, fix, min_of}
use mrrik_ai_bot.Shared.Retry.{
  RetryPolicy, Attempt, retryable, exhausted, validate_policy, compute_backoff_delay, retry_loop,
  retry_async,
}
use mrrik_ai_bot.Shared.Retry.Attempts.{Failing, retry_async-Failing}
use mrrik_ai_bot.Shared.Retry.Delays.{compute_backoff_delay-capped}

abbrev policy : RetryPolicy
policy = record {
  max_attempts = 3;
  base_delay_sec = decimal 5 1;
  max_delay_sec = of_ℕ 3;
  jitter_pct = of_ℕ 0;
}

abbrev no_jitter : ℕ → Decimal
no_jitter i = of_ℕ 0

-- The state counts the attempts.
abbrev never : ℕ → Attempt ℕ × ℕ
never n = (retryable "timeout", suc n)

abbrev go_on : Decimal → ℕ → ℕ
go_on delay n = n

gives_up : retry_async never go_on no_jitter policy 0 ≡ (exhausted, 3)
unfolding retry_async retry_loop validate_policy compute_backoff_delay le lt eq mul fix min_of
gives_up = refl

retry_async-Failing_example : Failing never go_on no_jitter policy 3 0 0 3
retry_async-Failing_example = retry_async-Failing never go_on no_jitter policy 0 3 gives_up

-- The fourth delay of 0.5, 1, 2, 4 is cut to the longest one.
cut : compute_backoff_delay no_jitter 3 policy ≡ ok (of_ℕ 3)
unfolding validate_policy compute_backoff_delay le lt eq mul fix min_of
cut = refl

compute_backoff_delay-capped_example : le (of_ℕ 3) (of_ℕ 3) ≡ true
compute_backoff_delay-capped_example = compute_backoff_delay-capped no_jitter 3 policy (of_ℕ 3) cut
