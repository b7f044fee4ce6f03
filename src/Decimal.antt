-- ===== src/Decimal.antt =====
-- Python's `decimal.Decimal` under the default context, as the services use it: 28 significant
-- digits, rounding half to even. A number is (-1)^negative * digits / 10^places. Infinities, NaNs
-- and the exponent limits of the context are left out, and a positive exponent is written out as
-- zeros, which keeps the value.
pub mod Order
use mrrik_ai_bot.Prelude.{
  ℕ, zero, suc, ◌+◌, ◌-◌, ◌*◌, ◌/◌, ◌%◌, ◌^◌, ◌≡◌, refl, Bool, true, false, not, ◌&&◌, ◌||◌, xor,
  List, [], ◌∷◌, ltb, leb, ◌==◌, if◌then◌else◌,
}
use Prim.Native.Nat.{max}

pub record Decimal : Type 0 where
  pub negative : Bool
  pub digits : ℕ
  pub places : ℕ

abbrev pub of_ℕ : ℕ → Decimal
of_ℕ n = record { negative = false; digits = n; places = 0 }

-- `Decimal("d.ddd")` with `places` digits behind the point.
abbrev pub decimal : ℕ → ℕ → Decimal
decimal n p = record { negative = false; digits = n; places = p }

abbrev pub precision : ℕ
precision = 28

-- How many digits stand beyond the precision; `fuel` is at least the number.
unfoldable pub excess : ℕ → ℕ → ℕ
excess zero n = 0
excess (suc fuel) n = elim (ltb n (10 ^ precision)) [
  | true ↦ 0
  | false ↦ suc (excess fuel (n / 10))
]

-- Round half to even, dropping the last `k` digits.
unfoldable pub round_half_even : ℕ → ℕ → ℕ
round_half_even n k =
    let q = n / 10 ^ k in
    let twice = 2 * (n % 10 ^ k) in
    if ltb (10 ^ k) twice || (twice == 10 ^ k && (q % 2) == 1) then q + 1 else q

-- The number with the places that are left, where dropping more digits than there are places
-- leaves an integer with zeros at its end.
unfoldable pub dropped_digits : Bool → ℕ → ℕ → ℕ → Decimal
dropped_digits s n places k = record {
  negative = s;
  digits = n * 10 ^ (k - places);
  places = places - k;
}

-- The context's rounding of an exact result.
unfoldable pub fix : Decimal → Decimal
unfolding excess round_half_even dropped_digits
fix x =
    let k = excess x.digits x.digits in
    if k == 0 then x else dropped_digits x.negative (round_half_even x.digits k) x.places k

-- The positive and the negative part of the number, in units of 10^-places.
abbrev pub above : Decimal → ℕ
above x = if x.negative then 0 else x.digits

abbrev pub below : Decimal → ℕ
below x = if x.negative then x.digits else 0

abbrev pub of_difference : ℕ → ℕ → ℕ → Decimal
of_difference up down p =
    if leb down up
    then record { negative = false; digits = up - down; places = p }
    else record { negative = true; digits = down - up; places = p }

-- The exact sum, at the finer of the two scales.
unfoldable pub exact_add : Decimal → Decimal → Decimal
exact_add x y =
    let p = max x.places y.places in
    let a = 10 ^ (p - x.places) in
    let b = 10 ^ (p - y.places) in
    of_difference (above x * a + above y * b) (below x * a + below y * b) p

-- `x + y`
unfoldable pub add : Decimal → Decimal → Decimal
unfolding exact_add fix
add x y = fix (exact_add x y)

-- `-x`, which rounds too.
unfoldable pub neg : Decimal → Decimal
unfolding fix
neg x = fix (record x { negative = if x.digits == 0 then false else not x.negative })

abbrev flip : Decimal → Decimal
flip x = record x { negative = not x.negative }

-- `x - y`
unfoldable pub sub : Decimal → Decimal → Decimal
unfolding exact_add fix
sub x y = fix (exact_add x (flip y))

-- `x * y`
unfoldable pub mul : Decimal → Decimal → Decimal
unfolding fix
mul x y = fix (record {
  negative = xor x.negative y.negative;
  digits = x.digits * y.digits;
  places = x.places + y.places;
})

-- The decimal digits of a number, at most `fuel`.
unfoldable pub digit_count : ℕ → ℕ → ℕ
digit_count zero n = 0
digit_count (suc fuel) n = elim (ltb n 10) [ true ↦ 1 | false ↦ suc (digit_count fuel (n / 10)) ]

-- `x / y` for `y` other than zero: at least 29 digits of the quotient, the last of them made
-- other than 0 and 5 when a remainder is left, and then rounded.
unfoldable pub div : Decimal → Decimal → Decimal
unfolding fix digit_count
div x y =
    let a = x.digits * 10 ^ y.places in
    let b = y.digits * 10 ^ x.places in
    let shift = precision + digit_count b b in
    let q = a * 10 ^ shift / b in
    let sticky = if (a * 10 ^ shift % b) == 0 then false else (q % 5) == 0 in
    fix (record {
      negative = xor x.negative y.negative;
      digits = if sticky then q + 1 else q;
      places = shift;
    })

-- `x.to_integral_value(rounding=ROUND_FLOOR)` and `ROUND_CEILING`
abbrev pub away_from_zero : ℕ → ℕ → ℕ
away_from_zero n p = (n + 10 ^ p - 1) / 10 ^ p

unfoldable pub floor : Decimal → Decimal
floor x = record {
  negative = x.negative;
  digits = if x.negative then away_from_zero x.digits x.places else x.digits / 10 ^ x.places;
  places = 0;
}

unfoldable pub ceiling : Decimal → Decimal
ceiling x = record {
  negative = x.negative;
  digits = if x.negative then x.digits / 10 ^ x.places else away_from_zero x.digits x.places;
  places = 0;
}

-- `x <= y`, `x < y` and `x == y` compare values.
unfoldable pub le : Decimal → Decimal → Bool
le x y =
    leb (above x * 10 ^ y.places + below y * 10 ^ x.places)
      (above y * 10 ^ x.places + below x * 10 ^ y.places)

unfoldable pub lt : Decimal → Decimal → Bool
unfolding le
lt x y = not (le y x)

unfoldable pub eq : Decimal → Decimal → Bool
unfolding le
eq x y = le x y && le y x

-- `abs(x)`
unfoldable pub abs : Decimal → Decimal
unfolding fix
abs x = fix (record x { negative = false })

-- `sum(xs, Decimal("0"))`, and `sum(xs, start)` in general.
unfoldable pub sum_from : Decimal → List Decimal → Decimal
sum_from acc [] = acc
sum_from acc (x ∷ xs) = sum_from (add acc x) xs

unfoldable pub sum : List Decimal → Decimal
unfolding sum_from
sum xs = sum_from (of_ℕ 0) xs

-- `max(x, y)` and `min(x, y)`: the first of two equal numbers.
unfoldable pub max_of : Decimal → Decimal → Decimal
unfolding lt
max_of x y = if lt x y then y else x

unfoldable pub min_of : Decimal → Decimal → Decimal
unfolding lt
min_of x y = if lt y x then y else x
