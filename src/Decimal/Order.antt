-- ===== src/Decimal/Order.antt =====
-- Comparison of decimals is a total order of their values.
use mrrik_ai_bot.Prelude.{
  ℕ, zero, suc, ◌+◌, ◌*◌, ◌^◌, ◌≤◌, ◌<◌, ◌≡◌, true, false, arith, leb→le, le→leb, if-holds,
}
use mrrik_ai_bot.Decimal.{Decimal, above, below, le, lt, max_of, min_of}
use native.Mathlib.Nat.{mul-le-mul_right, le_of_mul-le-mul_right, pow-suc}

-- Comparing fractions over different positive denominators is transitive.
cross_trans :
    (ua da a ub db b uc dc c : ℕ)
    → 0 < b
    → ua * b + db * a ≤ ub * a + da * b
    → ub * c + dc * b ≤ uc * b + db * c
    → ua * c + dc * a ≤ uc * a + da * c
cross_trans ua da a ub db b uc dc c pb h k =
    le_of_mul-le-mul_right (omega (arith, mul-le-mul_right c h, mul-le-mul_right a k)) pb

pub pow-pos : (n : ℕ) → 0 < 10 ^ n
pow-pos zero = omega arith
pow-pos (suc n) = rw pow-suc (omega (arith, pow-pos n))

pub le_trans : (x y z : Decimal) → le x y ≡ true → le y z ≡ true → le x z ≡ true
unfolding le
le_trans x y z p q = le→leb _ _ (
    cross_trans (above x) (below x) (10 ^ x.places) (above y) (below y) (10 ^ y.places) (above z)
      (below z) (10 ^ z.places) (pow-pos y.places) (leb→le _ _ p) (leb→le _ _ q))

pub le_total : (x y : Decimal) → le x y ≡ false → le y x ≡ true
unfolding le
le_total x y h = ground arith

pub le_refl : (x : Decimal) → le x x ≡ true
unfolding le
le_refl x = ground arith

pub lt→le : (x y : Decimal) → lt x y ≡ true → le x y ≡ true
unfolding lt
lt→le x y h = ground (arith, le_total y x)

pub lt_trans : (x y z : Decimal) → lt x y ≡ true → lt y z ≡ true → lt x z ≡ true
unfolding lt
lt_trans x y z p q = ground (arith, le_trans z x y, le_total y x)

pub lt_of_le_of_lt : (x y z : Decimal) → le x y ≡ true → lt y z ≡ true → lt x z ≡ true
unfolding lt
lt_of_le_of_lt x y z p q = ground (arith, le_trans z x y)

pub lt_of_lt_of_le : (x y z : Decimal) → lt x y ≡ true → le y z ≡ true → lt x z ≡ true
unfolding lt
lt_of_lt_of_le x y z p q = ground (arith, le_trans y z x)

pub lt_irrefl : (x : Decimal) → lt x x ≡ false
unfolding lt
lt_irrefl x = ground (arith, le_refl x)

not-lt→le : (x y : Decimal) → lt x y ≡ false → le y x ≡ true
unfolding lt
not-lt→le x y h = ground arith

pub le-max_of : (x y : Decimal) → le y (max_of x y) ≡ true
unfolding max_of
le-max_of x y = if-holds (λ m. le y m ≡ true) (lt x y) y x (λ _. le_refl y) (not-lt→le x y)

pub min_of-le : (x y : Decimal) → le (min_of x y) y ≡ true
unfolding min_of
min_of-le x y = if-holds (λ m. le m y ≡ true) (lt y x) y x (λ _. le_refl y) (not-lt→le y x)
