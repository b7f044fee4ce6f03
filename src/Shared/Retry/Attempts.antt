-- ===== src/Shared/Retry/Attempts.antt =====
-- shared/retry.py: how often the operation is tried.
use mrrik_ai_bot.Prelude.{ℕ, zero, suc, ◌≡◌, refl, subst, String, Result, ok, err}
use mrrik_ai_bot.Decimal.{Decimal}
use mrrik_ai_bot.Shared.Retry.{
  RetryPolicy, Attempt, returned, retryable, raised, Retried, result, exhausted, failed,
  validate_policy, compute_backoff_delay, after_delay, after_attempt, retry_loop, validated,
  retry_async,
}

module _ {S A : Type 0} (operation : S → Attempt A × S) (sleep : Decimal → S → S)
    (jitter_unit : ℕ → Decimal) (policy : RetryPolicy) where
  -- So many attempts in a row, from the index on, that all failed in a way to retry, with the
  -- pause of the policy between two of them.
  pub data Failing : ℕ → ℕ → S → S → Type 0 where
    last : (i : ℕ) (s s' : S) (e : String) → operation s ≡ (retryable e, s') → Failing 1 i s s'
    again :
        (n i : ℕ) (s s' t : S) (e : String) (delay : Decimal)
        → operation s ≡ (retryable e, s')
        → compute_backoff_delay jitter_unit i policy ≡ ok delay
        → Failing n (suc i) (sleep delay s') t
        → Failing (suc n) i s t

  abbrev Exhausts : ℕ → ℕ → S → Retried A × S → Type 0
  Exhausts n i s (exhausted, t) = Failing n i s t
  Exhausts n i s (result a, t) = Unit
  Exhausts n i s (failed e, t) = Unit

  delayed :
      (n i : ℕ) (s s' : S) (e : String) (r : Result Decimal)
      → operation s ≡ (retryable e, s')
      → compute_backoff_delay jitter_unit i policy ≡ r
      → ((u : S) → Exhausts n (suc i) u (retry_loop operation sleep jitter_unit policy n (suc i) u))
      → Exhausts (suc n) i s (
          after_delay operation sleep jitter_unit policy
            (retry_loop operation sleep jitter_unit policy n (suc i))
            r
            s')
  delayed n i s s' e (err x) at made rest = tt
  delayed n i s s' e (ok d) at made rest =
      step (retry_loop operation sleep jitter_unit policy n (suc i) (sleep d s'))
        (rest (sleep d s'))
    where
      step : (o : Retried A × S) → Exhausts n (suc i) (sleep d s') o → Exhausts (suc n) i s o
      step (exhausted, t) h = again n i s s' t e d at made h
      step (result a, t) h = tt
      step (failed x, t) h = tt

  attempted :
      (n i : ℕ) (s : S) (o : Attempt A × S)
      → operation s ≡ o
      → ((u : S) → Exhausts n (suc i) u (retry_loop operation sleep jitter_unit policy n (suc i) u))
      → Exhausts (suc n) i s (
          after_attempt operation sleep jitter_unit policy
            (retry_loop operation sleep jitter_unit policy n (suc i))
            n
            i
            o)
  attempted n i s (returned a, s') at rest = tt
  attempted n i s (raised e, s') at rest = tt
  attempted zero i s (retryable e, s') at rest = last i s s' e at
  attempted (suc n) i s (retryable e, s') at rest =
      delayed (suc n) i s s' e (compute_backoff_delay jitter_unit i policy) at refl rest

  retry_loop-Exhausts :
      (n i : ℕ) (s : S) → Exhausts n i s (retry_loop operation sleep jitter_unit policy n i s)
  unfolding retry_loop
  retry_loop-Exhausts zero i s = tt
  retry_loop-Exhausts (suc n) i s =
      attempted n i s (operation s) refl (retry_loop-Exhausts n (suc i))

  validated-Exhausts :
      (s : S) (r : Result (Unit {0}))
      → Exhausts policy.max_attempts 0 s (
          validated operation sleep jitter_unit policy r
            (retry_loop operation sleep jitter_unit policy policy.max_attempts 0)
            s)
  validated-Exhausts s (err e) = tt
  validated-Exhausts s (ok u) = retry_loop-Exhausts policy.max_attempts 0 s

  -- The retries are exhausted only after exactly as many attempts as the policy allows, each of
  -- which failed in a way to retry, with the policy's pause between two of them.
  pub retry_async-Failing :
      (s t : S)
      → retry_async operation sleep jitter_unit policy s ≡ (exhausted, t)
      → Failing policy.max_attempts 0 s t
  unfolding retry_async
  retry_async-Failing s t e =
      subst (Exhausts policy.max_attempts 0 s) e (validated-Exhausts s (validate_policy policy))
