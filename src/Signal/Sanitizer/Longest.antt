-- ===== src/Signal/Sanitizer/Longest.antt =====
-- shared/signal/sanitizer.py: the kept subsequence is monotonic, and none is longer.
use mrrik_ai_bot.Prelude.{
  ℕ, suc, ◌+◌, ◌≤◌, ◌≡◌, refl, ◌⊎◌, inl, inr, Bool, true, false, List, [], ◌∷◌, ◌++◌, subst, ◌&&◌,
  arith, length, length-append, All, All-split, if◌then◌else◌,
}
use mrrik_ai_bot.Decimal.{Decimal}
use mrrik_ai_bot.Signal.Types.{SignalSide}
use mrrik_ai_bot.Signal.Sanitizer.Paths.{
  IndexPath, prefer_path, monotonic, best_path, build_paths, select_path, best_of_paths,
  longest_monotonic_path,
}

-- Each item is strictly nearer to the entry than the next one.
abbrev pub Monotonic : SignalSide → List Decimal → Type 0
Monotonic side [] = Unit
Monotonic side (x ∷ []) = Unit
Monotonic side (x ∷ y ∷ r) = (monotonic side x y ≡ true) × Monotonic side (y ∷ r)

-- The items of the first list stand in the second one in the same order.
abbrev pub Subsequence : List Decimal → List Decimal → Type 0
Subsequence [] ys = Unit
Subsequence (x ∷ xs) [] = ⊥
Subsequence (x ∷ xs) (y ∷ ys) = ((x ≡ y) × Subsequence xs ys) ⊎ Subsequence (x ∷ xs) ys

-- The loop's list with the latest entry first.
abbrev oldest_first : List (Decimal × IndexPath) → List (Decimal × IndexPath)
oldest_first [] = []
oldest_first (e ∷ r) = oldest_first r ++ e ∷ []

All-oldest_first {κ} :
    (P : Decimal × IndexPath → Type κ) (r : List (Decimal × IndexPath))
    → All P (oldest_first r)
    → All P r
All-oldest_first P [] h = tt
All-oldest_first P (e ∷ r) h =
    let (older, latest) = All-split P (oldest_first r) (e ∷ []) h in
    (latest.0, All-oldest_first P r older)

module _ (side : SignalSide) where
  -- Preferring one path to another never loses length.
  prefer_longer : (c b : IndexPath) → prefer_path side c b ≡ true → length b ≤ length c
  unfolding prefer_path
  prefer_longer c b h = ground arith

  keep_longer : (c b : IndexPath) → prefer_path side c b ≡ false → length c ≤ length b
  unfolding prefer_path
  keep_longer c b h = ground arith

  abbrev Reached : Decimal → ℕ → List (Decimal × IndexPath) → Type 0
  Reached v n = All λ e. monotonic side e.0 v ≡ true → suc (length e.1) ≤ n

  length-extend : (p : IndexPath) (i : ℕ) (v : Decimal) → length (p ++ (i, v) ∷ []) ≡ suc (length p)
  length-extend p i v = omega (arith, length-append p ((i, v) ∷ []))

  -- The inner loop's step.
  abbrev better : Bool → IndexPath → IndexPath → IndexPath
  better m c b = if m && prefer_path side c b then c else b

  better_path :
      (m : Bool) (c b : IndexPath)
      → (length b ≤ length (better m c b)) × (m ≡ true → length c ≤ length (better m c b))
  better_path true c b = ground (arith, prefer_longer c b, keep_longer c b)
  better_path false c b = ground arith

  best_path-Reached :
      (i : ℕ) (v : Decimal) (best : IndexPath) (done : List (Decimal × IndexPath))
      → let n = length (best_path side i v best done) in (length best ≤ n) × Reached v n done
  unfolding best_path
  best_path-Reached i v best [] = (omega arith, tt)
  best_path-Reached i v best ((w, q) ∷ rest) =
      let (grows, reaches) = better_path (monotonic side w v) (q ++ (i, v) ∷ []) best in
      let (ih, others) =
        best_path-Reached i v (better (monotonic side w v) (q ++ (i, v) ∷ []) best) rest in
      (omega arith, ((λ h. omega (arith, reaches h, length-extend q i v)), others))

  -- A chain of values, latest first, whose next value is `v`.
  abbrev Linked : Decimal → List Decimal → Type 0
  Linked v [] = Unit
  Linked v (z ∷ zs) = monotonic side z v ≡ true

  -- A monotonic chain of the values in the loop's list, both latest first.
  abbrev Chain : List Decimal → List (Decimal × IndexPath) → Type 0
  Chain [] r = Unit
  Chain (z ∷ zs) [] = ⊥
  Chain (z ∷ zs) (e ∷ r) = ((z ≡ e.0) × Linked z zs × Chain zs r) ⊎ Chain (z ∷ zs) r

  -- Every path is as long as any chain that ends where it ends.
  abbrev Optimal : List (Decimal × IndexPath) → Type 0
  Optimal [] = Unit
  Optimal (e ∷ r) =
      ((zs : List Decimal) → Chain zs r → Linked e.0 zs → suc (length zs) ≤ length e.1) × Optimal r

  Chain-attained :
      (v : Decimal) (n : ℕ) (zs : List Decimal) (r : List (Decimal × IndexPath))
      → 1 ≤ n
      → Optimal r
      → Reached v n r
      → Chain zs r
      → Linked v zs
      → suc (length zs) ≤ n
  Chain-attained v n [] r one o h c l = omega arith
  Chain-attained v n (z ∷ zs) [] one o h c l = absurd c
  Chain-attained v n (z ∷ zs) (e ∷ r) one o h (inl (same, linked, c)) l = omega (
    arith,
    o.0 zs c (subst (λ t. Linked t zs) same linked),
    h.0 (subst (λ t. monotonic side t v ≡ true) same l),
  )
  Chain-attained v n (z ∷ zs) (e ∷ r) one o h (inr c) l =
      Chain-attained v n (z ∷ zs) r one o.1 h.1 c l

  Chain-below :
      (n : ℕ) (zs : List Decimal) (r : List (Decimal × IndexPath))
      → Optimal r
      → All (λ e. length e.1 ≤ n) r
      → Chain zs r
      → length zs ≤ n
  Chain-below n [] r o h c = omega arith
  Chain-below n (z ∷ zs) [] o h c = absurd c
  Chain-below n (z ∷ zs) (e ∷ r) o h (inl (same, linked, c)) =
      omega (arith, o.0 zs c (subst (λ t. Linked t zs) same linked), h.0)
  Chain-below n (z ∷ zs) (e ∷ r) o h (inr c) = Chain-below n (z ∷ zs) r o.1 h.1 c

  -- A chain that goes on with a monotonic list.
  abbrev Joined : List Decimal → List Decimal → Type 0
  Joined zs [] = Unit
  Joined zs (y ∷ ys) = Linked y zs × Monotonic side (y ∷ ys)

  Joined-step :
      (zs : List Decimal) (y : Decimal) (ys : List Decimal)
      → Joined zs (y ∷ ys)
      → Joined (y ∷ zs) ys
  Joined-step zs y [] h = tt
  Joined-step zs y (x ∷ ys) h = (h.1.0, h.1.1)

  Joined-head :
      (zs : List Decimal) (y : Decimal) (ys : List Decimal) → Joined zs (y ∷ ys) → Linked y zs
  Joined-head zs y ys h = h.0

  Chain-weaken :
      (zs : List Decimal) (e : Decimal × IndexPath) (r : List (Decimal × IndexPath))
      → Chain zs r
      → Chain zs (e ∷ r)
  Chain-weaken [] e r c = tt
  Chain-weaken (z ∷ zs) e r c = inr c

  abbrev next_path : ℕ → Decimal → List (Decimal × IndexPath) → IndexPath
  next_path i v r = best_path side i v ((i, v) ∷ []) (oldest_first r)

  Optimal-step :
      (i : ℕ) (v : Decimal) (r : List (Decimal × IndexPath))
      → Optimal r
      → Optimal ((v, next_path i v r) ∷ r)
  Optimal-step i v r o =
      let (one, reached) = best_path-Reached i v ((i, v) ∷ []) (oldest_first r) in
      ((λ us k l. Chain-attained v _ us r one o (All-oldest_first _ r reached) k l), o)

  build_paths-longest :
      (i n : ℕ) (r : List (Decimal × IndexPath)) (vs zs ys : List Decimal)
      → Optimal r
      → Chain zs r
      → Subsequence ys vs
      → Joined zs ys
      → All (λ e. length e.1 ≤ n) (build_paths side i (oldest_first r) vs)
      → length zs + length ys ≤ n
  unfolding build_paths
  build_paths-longest i n r [] zs [] o c s j h =
      omega (arith, Chain-below n zs r o (All-oldest_first _ r h) c)
  build_paths-longest i n r [] zs (y ∷ ys) o c s j h = absurd s
  build_paths-longest i n r (v ∷ vs) zs [] o c s j h =
      build_paths-longest (suc i) n ((v, next_path i v r) ∷ r) vs zs [] (Optimal-step i v r o)
        (Chain-weaken zs _ r c) tt tt h
  build_paths-longest i n r (v ∷ vs) zs (y ∷ ys) o c (inl (same, s)) j h = omega (
    arith,
    build_paths-longest (suc i) n ((v, next_path i v r) ∷ r) vs (y ∷ zs) ys (Optimal-step i v r o)
        (inl (same, Joined-head zs y ys j, c)) s (Joined-step zs y ys j) h,
  )
  build_paths-longest i n r (v ∷ vs) zs (y ∷ ys) o c (inr s) j h =
      build_paths-longest (suc i) n ((v, next_path i v r) ∷ r) vs zs (y ∷ ys) (Optimal-step i v r o)
        (Chain-weaken zs _ r c) s j h

  select_path-longest :
      (res : IndexPath) (es : List (Decimal × IndexPath))
      → let n = length (select_path side res es) in (length res ≤ n) × All (λ e. length e.1 ≤ n) es
  unfolding select_path
  select_path-longest res [] = (omega arith, tt)
  select_path-longest res ((v, p) ∷ es) =
      let (grows, reaches) = better_path true p res in
      let (ih, others) = select_path-longest (better true p res) es in
      (omega arith, (omega (arith, reaches refl), others))

  best_of_paths-longest :
      (es : List (Decimal × IndexPath)) → All (λ e. length e.1 ≤ length (best_of_paths side es)) es
  unfolding best_of_paths
  best_of_paths-longest [] = tt
  best_of_paths-longest ((v, p) ∷ es) = select_path-longest p es

  -- No strictly monotonic subsequence of the values is longer than the one that is kept.
  pub longest_monotonic_path-longest :
      (values ys : List Decimal)
      → Subsequence ys values
      → Monotonic side ys
      → length ys ≤ length (longest_monotonic_path side values)
  unfolding longest_monotonic_path
  longest_monotonic_path-longest values [] s m = omega arith
  longest_monotonic_path-longest values (y ∷ ys) s m = omega (
    arith,
    build_paths-longest 0 _ [] values [] (y ∷ ys) tt tt s (tt, m) (best_of_paths-longest _),
  )
