-- ===== src/Shared/Retry/Delays.antt =====
-- shared/retry.py: the bounds of a delay.
use mrrik_ai_bot.Prelude.{
  ℕ, ◌≡◌, true, ◌||◌, ◌^◌, ok, Returns-elim, >>=-Returns, ok-Returns, if-Returns,
}
use mrrik_ai_bot.Decimal.{Decimal, of_ℕ, fix, mul, le, eq}
use mrrik_ai_bot.Decimal.Order.{min_of-le}
use mrrik_ai_bot.Shared.Retry.{
  RetryPolicy, validate_policy, capped_delay, jittered_delay, compute_backoff_delay,
}

-- A delay is never longer than the policy allows, whatever the jitter is.
pub compute_backoff_delay-capped :
    (jitter_unit : ℕ → Decimal) (attempt_index : ℕ) (policy : RetryPolicy) (delay : Decimal)
    → compute_backoff_delay jitter_unit attempt_index policy ≡ ok delay
    → le delay policy.max_delay_sec ≡ true
unfolding compute_backoff_delay
compute_backoff_delay-capped jitter_unit i policy delay e =
    Returns-elim Capped (compute_backoff_delay jitter_unit i policy) delay
      (>>=-Returns Capped (validate_policy policy) _ λ _ _.
        if-Returns Capped (eq (capped_delay policy i) (of_ℕ 0) || eq policy.jitter_pct (of_ℕ 0))
          (ok (capped_delay policy i))
          (ok (jittered_delay policy (capped_delay policy i) (jitter_unit i)))
          (λ _.
            ok-Returns Capped
              (min_of-le (mul policy.base_delay_sec (fix (of_ℕ (2 ^ i)))) policy.max_delay_sec))
          λ _. ok-Returns Capped (min_of-le _ policy.max_delay_sec))
      e
  where
    Capped : Decimal → Type 0
    Capped d = le d policy.max_delay_sec ≡ true
