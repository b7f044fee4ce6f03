-- ===== src/Prelude/Results.antt =====
-- The result of code that may raise: the value, or the message of the exception.
use Prim.Native.String.{String}
use mathlib.Core.Path.{◌≡◌, refl, subst}
use mathlib.Core.Bool.{Bool, true, false}
use mrrik_ai_bot.Prelude.Tests.{if◌then◌else◌}

-- An exception carries its message.
pub data Result {ℓ} (V : Type ℓ) : Type ℓ where
  err : (message : String) → Result V
  ok : (value : V) → Result V

-- `if b: raise ValueError(message)`
abbrev pub raise_if : (b : Bool) (message : String) → Result (Unit {0})
raise_if false message = ok tt
raise_if true message = err message

pub raise_if-passed : (b : Bool) (e : String) (u : Unit {0}) → raise_if b e ≡ ok u → b ≡ false
raise_if-passed true e u h = cc
raise_if-passed false e u h = refl

pub ok-injective {ℓ} : {V : Type ℓ} {v w : V} → ok v ≡ ok w → v ≡ w
ok-injective h = cc

pub err≢ok {ℓ} : {V : Type ℓ} {e : String} {v : V} → err e ≡ ok v → ⊥
err≢ok h = cc

-- What the first part raises passes by the rest.
module _ {ℓ κ} {V : Type ℓ} {W : Type κ} where
  infixl 5 ◌>>=◌
  abbrev pub ◌>>=◌ : Result V → (V → Result W) → Result W
  err message >>= rest = err message
  ok value >>= rest = rest value

  -- A chain that returned has returned from its first part.
  pub >>=-eq-ok :
      (first : Result V) (rest : V → Result W) {w : W}
      → (first >>= rest) ≡ ok w
      → (v : V) × (first ≡ ok v) × (rest v ≡ ok w)
  >>=-eq-ok (err message) rest h = cc
  >>=-eq-ok (ok value) rest h = (value, refl, h)

-- The same for a check, which has no value that the rest needs.
infixl 5 ◌>>◌
abbrev pub ◌>>◌ {κ} : {W : Type κ} → Result (Unit {0}) → Result W → Result W
check >> rest = check >>= λ _. rest

-- A bind returns where both of its parts do.
pub >>=-total {ℓ κ} :
    {A : Type ℓ} {B : Type κ} (m : Result A) (f : A → Result B)
    → (a : A) × (m ≡ ok a)
    → ((a : A) → (b : B) × (f a ≡ ok b))
    → (b : B) × ((m >>= f) ≡ ok b)
>>=-total (ok a) f h k = k a
>>=-total (err e) f (a, h) k = ((k a).0, cc)

-- What holds of each value that is returned.
unfoldable pub Returns {ℓ κ} : {A : Type ℓ} → (A → Type κ) → Result A → Type κ
Returns P (ok a) = P a
Returns P (err e) = Unit

pub >>=-Returns {ℓ κ τ} :
    {A : Type ℓ} {B : Type κ} (P : B → Type τ) (m : Result A) (f : A → Result B)
    → ((a : A) → m ≡ ok a → Returns P (f a))
    → Returns P (m >>= f)
unfolding Returns
>>=-Returns P (ok a) f h = h a refl
>>=-Returns P (err e) f h = tt

pub ok-Returns {ℓ κ} : {A : Type ℓ} (P : A → Type κ) {a : A} → P a → Returns P (ok a)
unfolding Returns
ok-Returns P h = h

pub Returns-elim {ℓ κ} :
    {A : Type ℓ} (P : A → Type κ) (m : Result A) (a : A) → Returns P m → m ≡ ok a → P a
unfolding Returns
Returns-elim P (ok b) a h e = subst P (ok-injective e) h
Returns-elim P (err x) a h e = cc

pub if-Returns {ℓ κ} :
    {A : Type ℓ} (P : A → Type κ) (b : Bool) (m k : Result A)
    → (b ≡ true → Returns P m)
    → (b ≡ false → Returns P k)
    → Returns P (if b then m else k)
if-Returns P true m k h g = h refl
if-Returns P false m k h g = g refl

pub Returns-map {ℓ κ τ} :
    {A : Type ℓ} {P : A → Type κ} {Q : A → Type τ} (m : Result A)
    → ((a : A) → P a → Q a)
    → Returns P m
    → Returns Q m
unfolding Returns
Returns-map (ok a) f h = f a h
Returns-map (err e) f h = tt

pub err-Returns {ℓ κ} : {A : Type ℓ} (P : A → Type κ) (e : String) → Returns P (err e)
unfolding Returns
err-Returns P e = tt

pub Returns-intro {ℓ κ} :
    {A : Type ℓ} (P : A → Type κ) (m : Result A) → ((a : A) → m ≡ ok a → P a) → Returns P m
unfolding Returns
Returns-intro P (ok a) h = h a refl
Returns-intro P (err e) h = tt
