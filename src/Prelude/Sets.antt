-- ===== src/Prelude/Sets.antt =====
-- Sets of numbers as Python's `tuple(sorted(set(xs)))` lists them: strictly increasing.
use Prim.Native.Nat.{ℕ, ◌<◌}
use mathlib.Core.Path.{◌≡◌, refl, sym, ap, ◌∙◌}
use mathlib.Core.Logic.{◌⊎◌, inl, inr}
use mathlib.Core.Bool.{Bool, true, false, ◌||◌}
use mathlib.Core.List.{List, [], ◌∷◌, ◌++◌, map}
use native.Mathlib.Omega.{arith}
use mrrik_ai_bot.Prelude.Lists.{keep_if}
use mrrik_ai_bot.Prelude.Tests.{true≢false, if◌then◌else◌, ltb, ◌==◌}

-- An item of the list.
abbrev pub Elem : {A : Type 0} → A → List A → Type 0
Elem k [] = ⊥
Elem k (x ∷ xs) = (k ≡ x) ⊎ Elem k xs

-- `k in xs`
unfoldable pub elem : ℕ → List ℕ → Bool
elem k [] = false
elem k (x ∷ xs) = k == x || elem k xs

unfoldable pub insert : ℕ → List ℕ → List ℕ
insert k [] = k ∷ []
insert k (x ∷ xs) =
    let rest = insert k xs in if ltb k x then k ∷ x ∷ xs else if k == x then x ∷ xs else x ∷ rest

-- `sorted(set(xs))`
unfoldable pub sorted_set : List ℕ → List ℕ
sorted_set [] = []
sorted_set (x ∷ xs) = insert x (sorted_set xs)

-- Each item is smaller than the next one.
abbrev pub Increasing : List ℕ → Type 0
Increasing [] = Unit
Increasing (x ∷ []) = Unit
Increasing (x ∷ y ∷ r) = (x < y) × Increasing (y ∷ r)

pub Elem-elem : (k : ℕ) (xs : List ℕ) → Elem k xs → elem k xs ≡ true
unfolding elem
Elem-elem k [] h = absurd h
Elem-elem k (x ∷ xs) (inl h) = ground arith
Elem-elem k (x ∷ xs) (inr h) = ground (arith, Elem-elem k xs h)

pub elem-Elem : (k : ℕ) (xs : List ℕ) → elem k xs ≡ true → Elem k xs
unfolding elem
elem-Elem k [] h = cc
elem-Elem k (x ∷ xs) h = ground (arith, elem-Elem k xs)

insert-Elem : (k x : ℕ) (xs : List ℕ) → (k ≡ x) ⊎ Elem k xs → Elem k (insert x xs)
unfolding insert
insert-Elem k x [] h = h
insert-Elem k x (y ∷ ys) h = ground (arith, insert-Elem k x ys)

Elem-insert : (k x : ℕ) (xs : List ℕ) → Elem k (insert x xs) → (k ≡ x) ⊎ Elem k xs
unfolding insert
Elem-insert k x [] h = h
Elem-insert k x (y ∷ ys) h = ground (arith, Elem-insert k x ys)

-- The sorted set has the items of the list.
pub sorted_set-Elem : (k : ℕ) (xs : List ℕ) → Elem k xs → Elem k (sorted_set xs)
unfolding sorted_set
sorted_set-Elem k [] h = absurd h
sorted_set-Elem k (x ∷ xs) (inl h) = insert-Elem k x (sorted_set xs) (inl h)
sorted_set-Elem k (x ∷ xs) (inr h) = insert-Elem k x (sorted_set xs) (inr (sorted_set-Elem k xs h))

pub Elem-sorted_set : (k : ℕ) (xs : List ℕ) → Elem k (sorted_set xs) → Elem k xs
unfolding sorted_set
Elem-sorted_set k [] h = absurd h
Elem-sorted_set k (x ∷ xs) h = elim (Elem-insert k x (sorted_set xs) h) [
  | inl e ↦ inl e
  | inr r ↦ inr (Elem-sorted_set k xs r)
]

insert-Increasing : (k : ℕ) (xs : List ℕ) → Increasing xs → Increasing (insert k xs)
unfolding insert
insert-Increasing k [] h = tt
insert-Increasing k (x ∷ []) h = ground arith
insert-Increasing k (x ∷ y ∷ r) h = ground (arith, insert-Increasing k (y ∷ r) h.1)

pub sorted_set-Increasing : (xs : List ℕ) → Increasing (sorted_set xs)
unfolding sorted_set
sorted_set-Increasing [] = tt
sorted_set-Increasing (x ∷ xs) = insert-Increasing x (sorted_set xs) (sorted_set-Increasing xs)

pub Elem-append-left : {A : Type 0} (k : A) (xs ys : List A) → Elem k xs → Elem k (xs ++ ys)
Elem-append-left k [] ys h = absurd h
Elem-append-left k (x ∷ xs) ys (inl h) = inl h
Elem-append-left k (x ∷ xs) ys (inr h) = inr (Elem-append-left k xs ys h)

pub Elem-append-split :
    {A : Type 0} (k : A) (xs ys : List A) → Elem k (xs ++ ys) → Elem k xs ⊎ Elem k ys
Elem-append-split k [] ys h = inr h
Elem-append-split k (x ∷ xs) ys (inl h) = inl (inl h)
Elem-append-split k (x ∷ xs) ys (inr h) = elim (Elem-append-split k xs ys h) [
  | inl l ↦ inl (inr l)
  | inr r ↦ inr r
]

-- What is mapped from a filtered list comes from an item that passes the filter.
module _ {A : Type 0} (f : A → ℕ) (p : A → Bool) (k : ℕ) where
  abbrev pub Source : List A → Type 0
  Source xs = (x : A) × Elem x xs × (f x ≡ k) × (p x ≡ true)

  Source-step :
      (b : Bool) (x : A) (xs ys : List A)
      → p x ≡ b
      → (Elem k (map f ys) → Source xs)
      → Elem k (map f (if b then x ∷ ys else ys))
      → Source (x ∷ xs)
  Source-step true x xs ys e rest (inl h) = (x, inl refl, sym h, e)
  Source-step true x xs ys e rest (inr h) =
      let (y, m, at, passes) = rest h in (y, inr m, at, passes)
  Source-step false x xs ys e rest h = let (y, m, at, passes) = rest h in (y, inr m, at, passes)

  pub Elem-keep_if : (xs : List A) → Elem k (map f (keep_if p xs)) → Source xs
  Elem-keep_if [] h = absurd h
  Elem-keep_if (x ∷ xs) h = Source-step (p x) x xs (keep_if p xs) refl (Elem-keep_if xs) h

pub Elem-append-right : {A : Type 0} (k : A) (xs ys : List A) → Elem k ys → Elem k (xs ++ ys)
Elem-append-right k [] ys h = h
Elem-append-right k (x ∷ xs) ys h = inr (Elem-append-right k xs ys h)

-- An item that passes the filter is mapped.
module _ {A : Type 0} (f : A → ℕ) (p : A → Bool) (y : A) where
  kept-step :
      (b : Bool) (x : A) (xs ys : List A)
      → p x ≡ b
      → (Elem y xs → Elem (f y) (map f ys))
      → Elem y (x ∷ xs)
      → p y ≡ true
      → Elem (f y) (map f (if b then x ∷ ys else ys))
  kept-step true x xs ys e rest (inl h) passes = inl (ap f h)
  kept-step true x xs ys e rest (inr h) passes = inr (rest h)
  kept-step false x xs ys e rest (inl h) passes = absurd (true≢false (sym passes ∙ (ap p h ∙ e)))
  kept-step false x xs ys e rest (inr h) passes = rest h

  pub keep_if-Elem : (xs : List A) → Elem y xs → p y ≡ true → Elem (f y) (map f (keep_if p xs))
  keep_if-Elem [] h passes = absurd h
  keep_if-Elem (x ∷ xs) h passes =
      kept-step (p x) x xs (keep_if p xs) refl (λ m. keep_if-Elem xs m passes) h passes
