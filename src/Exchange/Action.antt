-- ===== src/Exchange/Action.antt =====
-- Code that calls the exchange and may raise: it takes a world to a result and the next world.
-- What was done before an exception stays done.
use mrrik_ai_bot.Prelude.{◌≡◌, refl, ap, Result, ok, err, ok-injective, err≢ok}

abbrev pub Action : Type 0 → Type 0 → Type 0
Action W A = W → Result A × W

module _ {W : Type 0} where
  abbrev pub pure : {A : Type 0} → A → Action W A
  pure a w = (ok a, w)

  -- Code that does not touch the exchange and may raise.
  abbrev pub lift : {A : Type 0} → Result A → Action W A
  lift r w = (r, w)

  -- Code that cannot raise.
  abbrev pub safely : {A : Type 0} → (W → A × W) → Action W A
  safely f w = let (a, w') = f w in (ok a, w')

  -- How the rest of the code goes on from an outcome: an exception passes it by.
  abbrev pub resume : {A B : Type 0} → (A → Action W B) → Result A × W → Result B × W
  resume k (ok a, w) = k a w
  resume k (err e, w) = (err e, w)

  infixl 5 ◌>>=◌ ◌>>◌
  abbrev pub ◌>>=◌ : {A B : Type 0} → Action W A → (A → Action W B) → Action W B
  ◌>>=◌ m f w = resume f (m w)

  abbrev pub ◌>>◌ : {A B : Type 0} → Action W A → Action W B → Action W B
  m >> k = m >>= λ _. k

-- Every run of the action relates the world before it to the world after it.
abbrev pub Keeps {κ} : {W A : Type 0} → (W → W → Type κ) → Action W A → Type κ
Keeps {W} R m = (w : W) → R w (m w).1

module _ {κ} {W : Type 0} (R : W → W → Type κ) (trans : (u v w : W) → R u v → R v w → R u w) where
  -- A transitive relation that both parts keep is kept by a bind.
  pub >>=-Keeps :
      {A B : Type 0} (m : Action W A) (k : A → Action W B)
      → Keeps R m
      → ((a : A) → Keeps R (k a))
      → Keeps R (m >>= k)
  >>=-Keeps {A} {B} m k h kept w = go (m w) (h w)
    where
      go : (o : Result A × W) → R w o.1 → R w (resume k o).1
      go (ok a, v) p = trans w v (k a v).1 p (kept a v)
      go (err e, v) p = p

-- What holds of each value that an action returns.
abbrev pub Gives {κ} : {W A : Type 0} → (A → Type κ) → Result A × W → Type κ
Gives P (ok a, w) = P a
Gives P (err e, w) = Unit

pub resume-Gives {κ τ} :
    {W A B : Type 0} (Q : A → Type τ) (P : B → Type κ) (k : A → Action W B) (o : Result A × W)
    → Gives Q o
    → ((a : A) → Q a → (w : W) → Gives P (k a w))
    → Gives P (resume k o)
resume-Gives Q P k (ok a, w) h g = g a h w
resume-Gives Q P k (err e, w) h g = tt

pub any-Gives {κ} : {W A : Type 0} (o : Result A × W) → Gives {κ} (λ _. Unit) o
any-Gives (ok a, w) = tt
any-Gives (err e, w) = tt

-- The same from one world on, with what the first part returned.
pub >>=-at {κ} :
    {W A B : Type 0} (R : W → W → Type κ)
    → ((u v w : W) → R u v → R v w → R u w)
    → (m : Action W A) (k : A → Action W B) (w : W) → R w (m w).1
    → ((a : A) (v : W) → m w ≡ (ok a, v) → R w v → R v (k a v).1)
    → R w ((m >>= k) w).1
>>=-at {W = W} {A = A} {B = B} R trans m k w h rest = go (m w) refl h
  where
    go : (o : Result A × W) → m w ≡ o → R w o.1 → R w (resume k o).1
    go (ok a, v) e p = trans w v (k a v).1 p (rest a v e p)
    go (err x, v) e p = p

-- A pair of a value and a world that two runs agree on.
pub returned-injective :
    {W A : Type 0} {a b : A} {v w : W}
    → ◌≡◌ {A = Result A × W} (ok a, v) (ok b, w)
    → (a ≡ b) × (v ≡ w)
returned-injective e = (ok-injective (ap (λ o. o.0) e), ap (λ o. o.1) e)

-- The same as a record, by which a chain of binds is taken apart step by step.
pub record Steps {κ} {W A : Type 0} (R : W → W → Type κ) (m : Action W A) : Type κ where
  pub at : Keeps R m

module _ {κ} {W : Type 0} {R : W → W → Type κ} (trans : (u v w : W) → R u v → R v w → R u w) where
  pub >>=-Steps :
      {A B : Type 0} (m : Action W A) {k : A → Action W B}
      → Keeps R m
      → ((a : A) → Steps R (k a))
      → Steps R (m >>= k)
  >>=-Steps m {k} h rest = record { at = >>=-Keeps R trans m k h λ a. (rest a).at }

-- A chain that returned has returned from its first part, and went on from there.
pub >>=-ok :
    {W A B : Type 0} (m : Action W A) (k : A → Action W B) (w : W) (b : B) (v : W)
    → (m >>= k) w ≡ (ok b, v)
    → (a : A) × (x : W) × (m w ≡ (ok a, x)) × (k a x ≡ (ok b, v))
>>=-ok {W} {A} {B} m k w b v = go (m w) refl
  where
    go :
        (o : Result A × W)
        → m w ≡ o
        → resume k o ≡ (ok b, v)
        → (a : A) × (x : W) × (m w ≡ (ok a, x)) × (k a x ≡ (ok b, v))
    go (ok a, x) e h = (a, x, e, h)
    go (err y, x) e h = absurd (err≢ok (ap (λ p. p.0) h))

-- What holds where an action returns, and what holds where it raises.
abbrev pub Ends {κ} : {W A : Type 0} → (A → W → Type κ) → (W → Type κ) → Result A × W → Type κ
Ends Q F (ok a, w) = Q a w
Ends Q F (err e, w) = F w

pub resume-Ends {κ} :
    {W A B : Type 0} (P : A → W → Type κ) (Q : B → W → Type κ) (F : W → Type κ) (k : A → Action W B)
    (o : Result A × W)
    → Ends P F o
    → ((a : A) (w : W) → P a w → Ends Q F (k a w))
    → Ends Q F (resume k o)
resume-Ends P Q F k (ok a, w) h rest = rest a w h
resume-Ends P Q F k (err e, w) h rest = h
