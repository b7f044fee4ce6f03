-- ===== src/Signal/Sizing/Fractions.antt =====
-- shared/signal/sizing.py: how many targets the equal fractions serve.
use mrrik_ai_bot.Prelude.{
  ≤-suc-cases, and_elim, ℕ, zero, suc, ◌≡◌, ◌<◌, ◌≤◌, refl, inl, inr, Bool, true, false, ◌&&◌,
  Result, ok, err, ◌>>=◌, arith, subst, sym,
}
use mrrik_ai_bot.Decimal.{div, mul, sub, add, sum, le, eq}
use mrrik_ai_bot.Signal.Sizing.{equal_fractions, validate_fractions}

-- The equal fractions of a count, put to the check that `size_position` makes.
abbrev pub checked : ℕ → Result (Unit {0})
checked count = equal_fractions count >>= λ fs. validate_fractions fs count

abbrev passes : Result (Unit {0}) → Bool
passes (ok _) = true
passes (err _) = false

abbrev all_pass : ℕ → Bool
all_pass zero = true
all_pass (suc n) = passes (checked (suc n)) && all_pass n

passes-ok : (r : Result (Unit {0})) → passes r ≡ true → r ≡ ok tt
passes-ok (ok tt) h = refl
passes-ok (err e) h = cc

all_pass-elim : (n k : ℕ) → all_pass n ≡ true → 0 < k → k ≤ n → passes (checked k) ≡ true
all_pass-elim zero k h p q = absurd (omega arith)
all_pass-elim (suc n) k h p q =
    let (here, rest) = and_elim (passes (checked (suc n))) (all_pass n) h in
    elim (≤-suc-cases k n q) [
      | inl e ↦ subst (λ i. passes (checked i) ≡ true) (sym e) here
      | inr less ↦ all_pass-elim n k rest p less
    ]

ten_pass : all_pass 10 ≡ true
unfolding equal_fractions validate_fractions le div sub mul eq sum add
ten_pass = refl

-- For one to ten targets the equal fractions exist, are as many as the targets, are all positive,
-- and add up to exactly one in spite of the rounding to 28 digits.
pub equal_fractions-valid : (count : ℕ) → 0 < count → count ≤ 10 → checked count ≡ ok tt
equal_fractions-valid count p q = passes-ok (checked count) (all_pass-elim 10 count ten_pass p q)
