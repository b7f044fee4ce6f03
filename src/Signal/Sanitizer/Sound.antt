-- ===== src/Signal/Sanitizer/Sound.antt =====
-- shared/signal/sanitizer.py: the kept subsequence is monotonic, is one of the values, and is not
-- empty where there is a value.
use mrrik_ai_bot.Prelude.{
  ℕ, suc, ◌≡◌, ◌≢◌, refl, sym, subst, inl, inr, true, false, List, [], ◌∷◌, ◌++◌, All, All-append,
  All-map, Bool, ◌&&◌, if◌then◌else◌,
}
use mathlib.Core.List.{append-nil, append_assoc}
use mrrik_ai_bot.Decimal.{Decimal}
use mrrik_ai_bot.Signal.Types.{SignalSide}
use mrrik_ai_bot.Signal.Sanitizer.Paths.{
  IndexPath, path_values, prefer_path, monotonic, best_path, build_paths, select_path,
  best_of_paths, longest_monotonic_path,
}
use mrrik_ai_bot.Signal.Sanitizer.Longest.{Monotonic, Subsequence}

Subsequence-append :
    (xs ys : List Decimal) (v : Decimal) → Subsequence xs ys → Subsequence xs (ys ++ v ∷ [])
Subsequence-append [] ys v s = tt
Subsequence-append (x ∷ xs) [] v s = absurd s
Subsequence-append (x ∷ xs) (y ∷ ys) v (inl (e, s)) = inl (e, Subsequence-append xs ys v s)
Subsequence-append (x ∷ xs) (y ∷ ys) v (inr s) = inr (Subsequence-append (x ∷ xs) ys v s)

Subsequence-single : (ys : List Decimal) (v : Decimal) → Subsequence (v ∷ []) (ys ++ v ∷ [])
Subsequence-single [] v = inl (refl, tt)
Subsequence-single (y ∷ ys) v = inr (Subsequence-single ys v)

Subsequence-extend :
    (q : IndexPath) (i : ℕ) (ys : List Decimal) (v : Decimal)
    → Subsequence (path_values q) ys
    → Subsequence (path_values (q ++ (i, v) ∷ [])) (ys ++ v ∷ [])
Subsequence-extend [] i ys v s = Subsequence-single ys v
Subsequence-extend (x ∷ q) i [] v s = absurd s
Subsequence-extend (x ∷ q) i (y ∷ ys) v (inl (e, s)) = inl (e, Subsequence-extend q i ys v s)
Subsequence-extend (x ∷ q) i (y ∷ ys) v (inr s) = inr (Subsequence-extend (x ∷ q) i ys v s)

module _ (side : SignalSide) where
  -- The path is monotonic and its last value is the given one.
  abbrev Ends : IndexPath → Decimal → Type 0
  Ends [] v = ⊥
  Ends (x ∷ []) v = x.1 ≡ v
  Ends (x ∷ y ∷ p) v = (monotonic side x.1 y.1 ≡ true) × Ends (y ∷ p) v

  Ends-extend :
      (p : IndexPath) (w : Decimal) (i : ℕ) (v : Decimal)
      → Ends p w
      → monotonic side w v ≡ true
      → Ends (p ++ (i, v) ∷ []) v
  Ends-extend [] w i v h m = absurd h
  Ends-extend (x ∷ []) w i v h m = (subst (λ t. monotonic side t v ≡ true) (sym h) m, refl)
  Ends-extend (x ∷ y ∷ p) w i v h m = (h.0, Ends-extend (y ∷ p) w i v h.1 m)

  Ends→Monotonic : (p : IndexPath) (v : Decimal) → Ends p v → Monotonic side (path_values p)
  Ends→Monotonic [] v h = tt
  Ends→Monotonic (x ∷ []) v h = tt
  Ends→Monotonic (x ∷ y ∷ p) v h = (h.0, Ends→Monotonic (y ∷ p) v h.1)

  abbrev Sound : List Decimal → Decimal × IndexPath → Type 0
  Sound seen e = Ends e.1 e.0 × Subsequence (path_values e.1) seen

  chosen-Sound :
      (P : IndexPath → Type 0) (m b : Bool) (c best : IndexPath)
      → P best
      → (m ≡ true → P c)
      → P (if m && b then c else best)
  chosen-Sound P true true c best p f = f refl
  chosen-Sound P true false c best p f = p
  chosen-Sound P false b c best p f = p

  best_path-Sound :
      (P : IndexPath → Type 0) (i : ℕ) (v : Decimal) (done : List (Decimal × IndexPath))
      (best : IndexPath)
      → P best
      → All (λ e. monotonic side e.0 v ≡ true → P (e.1 ++ (i, v) ∷ [])) done
      → P (best_path side i v best done)
  unfolding best_path
  best_path-Sound P i v [] best p h = p
  best_path-Sound P i v ((w, q) ∷ rest) best p h =
      best_path-Sound P i v rest _ (chosen-Sound P (monotonic side w v) _ _ best p h.0) h.1

  build_paths-Sound :
      (i : ℕ) (vs seen : List Decimal) (done : List (Decimal × IndexPath))
      → All (Sound seen) done
      → All (Sound (seen ++ vs)) (build_paths side i done vs)
  unfolding build_paths
  build_paths-Sound i [] seen done h = rw append-nil h
  build_paths-Sound i (v ∷ vs) seen done h = rw (append_assoc seen (v ∷ []) vs) at (
      build_paths-Sound (suc i) vs (seen ++ v ∷ []) _ (
        All-append _ done ((v, best_path side i v ((i, v) ∷ []) done) ∷ [])
          (All-map done (λ e s. (s.0, Subsequence-append _ seen v s.1)) h)
          (
            best_path-Sound (λ p. Sound (seen ++ v ∷ []) (v, p)) i v done ((i, v) ∷ [])
                (refl, Subsequence-single seen v)
                (All-map done
                  (λ e s m. (Ends-extend e.1 e.0 i v s.0 m, Subsequence-extend e.1 i seen v s.1))
                  h),
            tt,
          )))

  -- A path that is monotonic, made of the values, and not empty.
  abbrev pub IsKept : List Decimal → IndexPath → Type 0
  IsKept values p = Monotonic side (path_values p) × Subsequence (path_values p) values × (p ≢ [])

  Sound→IsKept :
      (values : List Decimal) (e : Decimal × IndexPath) → Sound values e → IsKept values e.1
  Sound→IsKept values (v, []) h = absurd h.0
  Sound→IsKept values (v, x ∷ p) h = (Ends→Monotonic (x ∷ p) v h.0, h.1, λ q. cc)

  select_path-IsKept :
      (values : List Decimal) (es : List (Decimal × IndexPath)) (res : IndexPath)
      → IsKept values res
      → All (λ e. IsKept values e.1) es
      → IsKept values (select_path side res es)
  unfolding select_path
  select_path-IsKept values [] res k h = k
  select_path-IsKept values ((v, p) ∷ es) res k h =
      select_path-IsKept values es _
        (chosen-Sound (IsKept values) true (prefer_path side p res) p res k (λ _. h.0)) h.1

  build_paths-ne-nil :
      (i : ℕ) (vs : List Decimal) (e : Decimal × IndexPath) (done : List (Decimal × IndexPath))
      → build_paths side i (e ∷ done) vs ≢ []
  unfolding build_paths
  build_paths-ne-nil i [] e done h = cc
  build_paths-ne-nil i (v ∷ vs) e done h = build_paths-ne-nil (suc i) vs e _ h

  best_of_paths-IsKept :
      (values : List Decimal) (es : List (Decimal × IndexPath))
      → es ≢ []
      → All (λ e. IsKept values e.1) es
      → IsKept values (best_of_paths side es)
  unfolding best_of_paths
  best_of_paths-IsKept values [] ne h = absurd (ne refl)
  best_of_paths-IsKept values ((v, p) ∷ es) ne h = select_path-IsKept values es p h.0 h.1

  -- Of at least one value, a strictly monotonic subsequence that is not empty is kept.
  pub longest_monotonic_path-IsKept :
      (value : Decimal) (values : List Decimal)
      → IsKept (value ∷ values) (longest_monotonic_path side (value ∷ values))
  unfolding longest_monotonic_path build_paths best_path
  longest_monotonic_path-IsKept v vs =
      best_of_paths-IsKept (v ∷ vs) (build_paths side 0 [] (v ∷ vs))
        (build_paths-ne-nil 1 vs (v, (0, v) ∷ []) [])
        (All-map _ (Sound→IsKept (v ∷ vs)) (build_paths-Sound 0 (v ∷ vs) [] [] tt))
