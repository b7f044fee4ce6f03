-- ===== src/Prelude/Text.antt =====
-- Identifiers as lists of code points, and printing a number in decimal.
use Prim.Native.Char.{code}
use Prim.Native.Nat.{ℕ, zero, suc, ◌+◌, ◌-◌, ◌*◌, ◌/◌, ◌%◌, ◌^◌, ◌≤◌, ◌<◌}
use mathlib.Core.Path.{◌≡◌, refl, ap}
use mathlib.Core.Bool.{Bool, true, false, ◌&&◌}
use mathlib.Core.List.{List, [], ◌∷◌, ◌++◌, map}
use Prim.Native.String.{String}
use native.Mathlib.Omega.{arith}
use native.Mathlib.Nat.{pow-suc}
use mrrik_ai_bot.Prelude.Tests.{ltb, leb, ◌==◌, if◌then◌else◌}
use mrrik_ai_bot.Prelude.Lists.{length, length-append}

abbrev pub Text : Type 0
Text = List ℕ

abbrev pub codes : String → Text
codes String.[] = []
codes (String.◌∷◌ c s) = code c ∷ codes s

-- `str.upper`, on the letters of ASCII.
abbrev upper_letter : ℕ → ℕ
upper_letter c = if leb b'a' c && leb c b'z' then c - 32 else c

unfoldable pub upper : Text → Text
upper t = map upper_letter t

-- `str.lower`, on the letters of ASCII.
abbrev lower_letter : ℕ → ℕ
lower_letter c = if leb b'A' c && leb c b'Z' then c + 32 else c

unfoldable pub lower : Text → Text
lower t = map lower_letter t

unfoldable pub text_eq : Text → Text → Bool
text_eq [] [] = true
text_eq [] (y ∷ ys) = false
text_eq (x ∷ xs) [] = false
text_eq (x ∷ xs) (y ∷ ys) = x == y && text_eq xs ys

pub text_eq_sound : (a b : Text) → text_eq a b ≡ true → a ≡ b
unfolding text_eq
text_eq_sound [] [] h = refl
text_eq_sound [] (y ∷ ys) h = cc
text_eq_sound (x ∷ xs) [] h = cc
text_eq_sound (x ∷ xs) (y ∷ ys) h = ground (arith, text_eq_sound xs ys)

pub text_eq_refl : (a : Text) → text_eq a a ≡ true
unfolding text_eq
text_eq_refl [] = refl
text_eq_refl (x ∷ xs) = ground (arith, text_eq_refl xs)

-- The decimal digits of a number, the leading one first; `fuel` is at least the number.
unfoldable pub print_from : ℕ → ℕ → Text
print_from zero n = (b'0' + n) ∷ []
print_from (suc fuel) n = elim (ltb n 10) [
  | true ↦ (b'0' + n) ∷ []
  | false ↦ print_from fuel (n / 10) ++ (b'0' + n % 10) ∷ []
]

-- `str(n)`
unfoldable pub print : ℕ → Text
unfolding print_from
print n = print_from n n

-- The number that a list of digits stands for.
pub read_from : ℕ → Text → ℕ
read_from acc [] = acc
read_from acc (d ∷ ds) = read_from (acc * 10 + (d - b'0')) ds

read_from-append :
    (acc : ℕ) (xs : Text) (d : ℕ)
    → read_from acc (xs ++ d ∷ []) ≡ read_from acc xs * 10 + (d - b'0')
unfolding read_from
read_from-append acc [] d = refl
read_from-append acc (x ∷ xs) d = read_from-append (acc * 10 + (x - b'0')) xs d

read-print_from : (fuel n : ℕ) → n ≤ fuel → read_from 0 (print_from fuel n) ≡ n
unfolding print_from read_from
read-print_from zero n h = omega arith
read-print_from (suc fuel) n h = ground (
  arith,
  read_from-append 0 (print_from fuel (n / 10)) (b'0' + n % 10),
  read-print_from fuel (n / 10),
)

-- Reading back what was printed gives the number, so no two numbers are printed alike.
pub read-print : (n : ℕ) → read_from 0 (print n) ≡ n
unfolding print
read-print n = read-print_from n n (omega arith)

pub print-injective : (m n : ℕ) → print m ≡ print n → m ≡ n
print-injective m n e = cc (ap (read_from 0) e, read-print m, read-print n)

-- Digits only.
abbrev pub AllDigits : Text → Type 0
AllDigits [] = Unit
AllDigits (d ∷ ds) = ((b'0' ≤ d) × (d ≤ b'9')) × AllDigits ds

AllDigits-append :
    (xs : Text) (d : ℕ) → AllDigits xs → b'0' ≤ d → d ≤ b'9' → AllDigits (xs ++ d ∷ [])
AllDigits-append [] d h p q = ((p, q), tt)
AllDigits-append (x ∷ xs) d h p q = (h.0, AllDigits-append xs d h.1 p q)

print_from-AllDigits : (fuel n : ℕ) → n ≤ fuel → AllDigits (print_from fuel n)
unfolding print_from
print_from-AllDigits zero n h = omega arith
print_from-AllDigits (suc fuel) n h = ground (
  arith,
  print_from-AllDigits fuel (n / 10),
  AllDigits-append (print_from fuel (n / 10)) (b'0' + n % 10),
)

pub print-AllDigits : (n : ℕ) → AllDigits (print n)
unfolding print
print-AllDigits n = print_from-AllDigits n n (omega arith)

tenth_below : (n k : ℕ) → n < 10 ^ suc k → n / 10 < 10 ^ k
tenth_below n k h = omega (arith, rw (pow-suc 10 k) at h)

length-print_from : (fuel n k : ℕ) → n ≤ fuel → n < 10 ^ suc k → length (print_from fuel n) ≤ suc k
unfolding print_from
length-print_from zero n k g h = omega arith
length-print_from (suc fuel) n zero g h = ground arith
length-print_from (suc fuel) n (suc k) g h = ground (
  arith,
  length-append (print_from fuel (n / 10)) ((b'0' + n % 10) ∷ []),
  length-print_from fuel (n / 10) k,
  tenth_below n (suc k) h,
)

-- A number below 10^k has at most k digits.
pub length-print : (n k : ℕ) → n < 10 ^ suc k → length (print n) ≤ suc k
unfolding print
length-print n k h = length-print_from n n k (omega arith) h
