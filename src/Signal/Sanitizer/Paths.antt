-- ===== src/Signal/Sanitizer/Paths.antt =====
-- shared/signal/sanitizer.py: `longest_monotonic_subsequence_indices` and `_prefer_path`. A path is
-- kept as pairs of an index and `values[index]`, so that reading a value back by its index cannot
-- go out of range.
use mrrik_ai_bot.Prelude.{
  ℕ, suc, Bool, true, false, ◌&&◌, ◌||◌, List, [], ◌∷◌, ◌++◌, map, ltb, ◌==◌, if◌then◌else◌, length,
}
use mrrik_ai_bot.Decimal.{Decimal, lt, eq}
use mrrik_ai_bot.Signal.Types.{SignalSide, long, short}

abbrev pub IndexPath : Type 0
IndexPath = List (ℕ × Decimal)

-- Python compares tuples item by item, and a proper prefix is the smaller one.
unfoldable pub tuple_lt : List Decimal → List Decimal → Bool
tuple_lt [] [] = false
tuple_lt [] (y ∷ ys) = true
tuple_lt (x ∷ xs) [] = false
tuple_lt (x ∷ xs) (y ∷ ys) = lt x y || (eq x y && tuple_lt xs ys)

unfoldable pub tuple_eq : List Decimal → List Decimal → Bool
tuple_eq [] [] = true
tuple_eq [] (y ∷ ys) = false
tuple_eq (x ∷ xs) [] = false
tuple_eq (x ∷ xs) (y ∷ ys) = eq x y && tuple_eq xs ys

unfoldable pub indices_lt : List ℕ → List ℕ → Bool
indices_lt [] [] = false
indices_lt [] (y ∷ ys) = true
indices_lt (x ∷ xs) [] = false
indices_lt (x ∷ xs) (y ∷ ys) = ltb x y || (x == y && indices_lt xs ys)

abbrev pub path_values : IndexPath → List Decimal
path_values = map λ p. p.1

abbrev pub path_indices : IndexPath → List ℕ
path_indices = map λ p. p.0

abbrev nearer_values : SignalSide → List Decimal → List Decimal → Bool
nearer_values long candidate current = tuple_lt candidate current
nearer_values short candidate current = tuple_lt current candidate

-- `_prefer_path(candidate, current, values, side)`
unfoldable pub prefer_path : SignalSide → IndexPath → IndexPath → Bool
unfolding tuple_lt tuple_eq indices_lt
prefer_path side candidate current =
    if length candidate == length current
    then (if tuple_eq (path_values candidate) (path_values current)
        then indices_lt (path_indices candidate) (path_indices current)
        else nearer_values side (path_values candidate) (path_values current))
    else ltb (length current) (length candidate)

unfoldable pub monotonic : SignalSide → Decimal → Decimal → Bool
monotonic long previous value = lt previous value
monotonic short previous value = lt value previous

-- The inner loop: the best path that ends at `value`, over the values and paths before it.
unfoldable pub best_path :
    SignalSide → ℕ → Decimal → IndexPath → List (Decimal × IndexPath) → IndexPath
unfolding prefer_path
best_path side i value best [] = best
best_path side i value best ((previous, path) ∷ rest) =
    let candidate = path ++ (i, value) ∷ [] in
    let better = monotonic side previous value && prefer_path side candidate best in
    best_path side i value (if better then candidate else best) rest

-- The outer loop: each value with its best path.
unfoldable pub build_paths :
    SignalSide → ℕ → List (Decimal × IndexPath) → List Decimal → List (Decimal × IndexPath)
unfolding best_path
build_paths side i paths [] = paths
build_paths side i paths (value ∷ values) =
    let best = best_path side i value ((i, value) ∷ []) paths in
    build_paths side (suc i) (paths ++ (value, best) ∷ []) values

unfoldable pub select_path : SignalSide → IndexPath → List (Decimal × IndexPath) → IndexPath
unfolding prefer_path
select_path side result [] = result
select_path side result ((value, path) ∷ rest) =
    select_path side (if prefer_path side path result then path else result) rest

-- The last loop: `result = paths[0]`, and then each of `paths[1:]` that is preferred to it.
unfoldable pub best_of_paths : SignalSide → List (Decimal × IndexPath) → IndexPath
unfolding select_path
best_of_paths side [] = []
best_of_paths side ((value, path) ∷ rest) = select_path side path rest

-- `longest_monotonic_subsequence_indices`, with the value at each index. It returns () at once
-- when there are no values, which is what the loops come to.
unfoldable pub longest_monotonic_path : SignalSide → List Decimal → IndexPath
unfolding build_paths best_of_paths
longest_monotonic_path side values = best_of_paths side (build_paths side 0 [] values)

unfoldable pub longest_monotonic_subsequence_indices : SignalSide → List Decimal → List ℕ
unfolding longest_monotonic_path
longest_monotonic_subsequence_indices side values =
    path_indices (longest_monotonic_path side values)
