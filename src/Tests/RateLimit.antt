-- ===== src/Tests/RateLimit.antt =====
-- shared/rate_limit.py on a concrete bucket.
use mrrik_ai_bot.Prelude.{◌≡◌, refl, true, ok, err}
use mrrik_ai_bot.Decimal.{of_ℕ, add, sub, mul, le, lt, min_of}
use mrrik_ai_bot.Shared.RateLimit.{TokenBucket, create, refill, try_acquire}
use mrrik_ai_bot.Shared.RateLimit.Bounded.{IsBounded, Granted, try_acquire-Granted}

abbrev bucket : TokenBucket
bucket = record {
  rate_per_second = of_ℕ 2;
  capacity = of_ℕ 10;
  tokens = of_ℕ 1;
  updated_at = of_ℕ 100;
}

-- Two seconds later there are five tokens, of which three are taken.
abbrev left : TokenBucket
left = record bucket { tokens = of_ℕ 2; updated_at = of_ℕ 102 }

acquires : try_acquire (of_ℕ 3) (of_ℕ 102) bucket ≡ ok (true, left)
unfolding try_acquire refill le lt min_of add sub mul
acquires = refl

bucket-IsBounded : IsBounded bucket
unfolding le
bucket-IsBounded = refl

try_acquire-Granted_example : Granted (of_ℕ 3) (of_ℕ 102) bucket
try_acquire-Granted_example =
    try_acquire-Granted (of_ℕ 3) (of_ℕ 102) bucket left bucket-IsBounded acquires

no_rate : create (of_ℕ 0) (of_ℕ 1) (of_ℕ 0) ≡ err "rate_per_second must be positive"
unfolding create le
no_rate = refl
