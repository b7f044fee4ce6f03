-- ===== src/Shared/RateLimit.antt =====
-- shared/rate_limit.py: the token bucket. The time is given to each operation; where the code is not
-- told it, it reads the clock.
pub mod Bounded
use mrrik_ai_bot.Prelude.{Bool, true, false, Result, ok, err, raise_if, ◌>>=◌, ◌>>◌, if◌then◌else◌}
use mrrik_ai_bot.Decimal.{Decimal, of_ℕ, add, sub, mul, div, le, lt, min_of}

pub record TokenBucket : Type 0 where
  pub rate_per_second : Decimal
  pub capacity : Decimal
  pub tokens : Decimal
  pub updated_at : Decimal

-- `TokenBucket.create`
unfoldable pub create : Decimal → Decimal → Decimal → Result TokenBucket
create rate_per_second capacity now = do
  raise_if (le rate_per_second (of_ℕ 0)) "rate_per_second must be positive"
  raise_if (le capacity (of_ℕ 0)) "capacity must be positive"
  ok (record {
    rate_per_second = rate_per_second;
    capacity = capacity;
    tokens = capacity;
    updated_at = now;
  })

unfoldable pub refill : Decimal → TokenBucket → TokenBucket
refill now bucket = if le now bucket.updated_at then bucket else record bucket {
  tokens =
      min_of bucket.capacity
        (add bucket.tokens (mul (sub now bucket.updated_at) bucket.rate_per_second));
  updated_at = now;
}

-- `_validate_requested_tokens`
abbrev pub validate_requested_tokens : Decimal → Result (Unit {0})
validate_requested_tokens tokens = raise_if (le tokens (of_ℕ 0)) "tokens must be positive"

abbrev pub take_tokens : Decimal → TokenBucket → Bool × TokenBucket
take_tokens tokens bucket =
    if lt bucket.tokens tokens
    then (false, bucket)
    else (true, record bucket { tokens = sub bucket.tokens tokens })

unfoldable pub try_acquire : Decimal → Decimal → TokenBucket → Result (Bool × TokenBucket)
try_acquire tokens now bucket = do
  validate_requested_tokens tokens
  ok (take_tokens tokens (refill now bucket))

abbrev pub wait_for : Decimal → TokenBucket → Decimal
wait_for tokens bucket =
    if le tokens bucket.tokens
    then of_ℕ 0
    else div (sub tokens bucket.tokens) bucket.rate_per_second

unfoldable pub seconds_until_available :
    Decimal → Decimal → TokenBucket → Result (Decimal × TokenBucket)
seconds_until_available tokens now bucket = do
  validate_requested_tokens tokens
  ok (wait_for tokens (refill now bucket), refill now bucket)
