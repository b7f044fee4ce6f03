-- ===== src/Shared/RateLimit/Bounded.antt =====
-- shared/rate_limit.py: what a bucket grants.
use mrrik_ai_bot.Prelude.{
  ◌≡◌, refl, ap, Bool, true, false, not, ok, raise_if, ◌>>◌, if◌then◌else◌, if-holds, subst, err≢ok,
  ok-injective,
}
use mrrik_ai_bot.Decimal.{Decimal, of_ℕ, sub, div, le, lt, min_of}
use mrrik_ai_bot.Decimal.Order.{le_trans, le_refl, lt→le}
use mrrik_ai_bot.Shared.RateLimit.{
  TokenBucket, refill, take_tokens, try_acquire, wait_for, seconds_until_available,
}

le-min_of : (x y : Decimal) → le (min_of x y) x ≡ true
unfolding min_of
le-min_of x y = if-holds (λ m. le m x ≡ true) (lt y x) y x (lt→le y x) λ _. le_refl x

-- No more tokens than the bucket holds.
abbrev pub IsBounded : TokenBucket → Type 0
IsBounded b = le b.tokens b.capacity ≡ true

-- Refilling leaves a bucket no fuller than its capacity, which stays.
abbrev Refilled : TokenBucket → TokenBucket → Type 0
Refilled b r = (r.capacity ≡ b.capacity) × IsBounded r

refill-Refilled : (now : Decimal) (b : TokenBucket) → IsBounded b → Refilled b (refill now b)
unfolding refill
refill-Refilled now b h =
    if-holds (Refilled b) (le now b.updated_at) _ _ (λ _. (refl, h)) λ _. (refl, le-min_of _ _)

-- The same guard decides both what is granted and that there is nothing to wait for.
granted :
    (tokens : Decimal) (r r' : TokenBucket)
    → ◌≡◌ {A = Bool × TokenBucket} (take_tokens tokens r) (true, r')
    → (le tokens r.tokens ≡ true) × (wait_for tokens r ≡ of_ℕ 0)
unfolding lt
granted tokens r r' e = go (le tokens r.tokens) (ap (λ p. p.0) e)
  where
    go :
        (c : Bool)
        → (if◌then◌else◌ {A = Bool × TokenBucket}
            (not c)
            (false, r)
            (true, record r { tokens = sub r.tokens tokens })).0
          ≡ true
        → (c ≡ true)
          × ((if c then of_ℕ 0 else div (sub tokens r.tokens) r.rate_per_second) ≡ of_ℕ 0)
    go true h = (refl, refl)
    go false h = cc

-- What the bucket grants is no more than its capacity, and asked at the same time it says that
-- there is nothing to wait for.
pub record Granted (tokens now : Decimal) (b : TokenBucket) : Type 0 where
  pub within : le tokens b.capacity ≡ true
  pub no_wait : seconds_until_available tokens now b ≡ ok (of_ℕ 0, refill now b)

-- Where a bucket that holds no more than its capacity grants tokens, they are no more than its
-- capacity, and asked at the same time it says that there is nothing to wait for.
pub try_acquire-Granted :
    (tokens now : Decimal) (b b' : TokenBucket)
    → IsBounded b
    → try_acquire tokens now b ≡ ok (true, b')
    → Granted tokens now b
unfolding try_acquire seconds_until_available
try_acquire-Granted tokens now b b' h e =
    let (enough, no_wait) = go (le tokens (of_ℕ 0)) e in
    let (same, bounded) = refill-Refilled now b h in
    record {
      within =
          subst (λ c. le tokens c ≡ true) same (le_trans tokens r.tokens r.capacity enough bounded);
      no_wait = no_wait;
    }
  where
    r : TokenBucket
    r = refill now b

    go :
        (c : Bool)
        → (raise_if c "tokens must be positive" >> ok (take_tokens tokens r)) ≡ ok (true, b')
        → (le tokens r.tokens ≡ true)
          × (◌>>◌ {W = Decimal × TokenBucket}
                (raise_if c "tokens must be positive")
                (ok (wait_for tokens r, r))
              ≡ ok (of_ℕ 0, r))
    go true k = absurd (err≢ok k)
    go false k =
        let (enough, nothing) = granted tokens r b' (ok-injective k) in
        (enough, ap (λ d. ok (d, r)) nothing)
