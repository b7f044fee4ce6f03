-- ===== src/Signal/Sanitizer.antt =====
-- shared/signal/sanitizer.py: `sanitize_signal` and what it calls. The longest monotonic
-- subsequence is in `Paths`.
pub mod Paths
pub mod Longest
pub mod Sound
pub mod Accepted
use mrrik_ai_bot.Prelude.{
  ℕ, zero, suc, ◌+◌, ◌-◌, ◌/◌, ◌%◌, Bool, true, false, not, ◌&&◌, ◌||◌, String, List, [], ◌∷◌, ◌++◌,
  map, Option, none, some, Result, ok, err, ◌>>=◌, ◌>>◌, raise_if, ltb, ◌==◌, if◌then◌else◌, length,
  get_elem?, keep_if, any,
}
use mrrik_ai_bot.Decimal.{Decimal, of_ℕ, le, lt, eq, sub, mul, div, add, abs, max_of}
use Paths.{IndexPath, path_values, path_indices, longest_monotonic_path}
use mrrik_ai_bot.Signal.Types.{
  SignalSide, long, short, ParsedEntrySignal, TargetCorrection, SanitizedSignal, RejectedSignal,
}

unfoldable pub is_target_on_profitable_side : SignalSide → Decimal → Decimal → Bool
is_target_on_profitable_side long entry target = lt entry target
is_target_on_profitable_side short entry target = lt target entry

unfoldable pub is_stop_loss_on_correct_side : SignalSide → Decimal → Decimal → Bool
is_stop_loss_on_correct_side long entry stop_loss = lt stop_loss entry
is_stop_loss_on_correct_side short entry stop_loss = lt entry stop_loss

-- Python's `sorted`: stable, so an item goes behind the items that are equal to it.
unfoldable pub insort {ℓ} : {A : Type ℓ} → (A → A → Bool) → A → List A → List A
insort less x [] = x ∷ []
insort less x (y ∷ ys) = if less y x then y ∷ insort less x ys else x ∷ y ∷ ys

unfoldable pub sorted {ℓ} : {A : Type ℓ} → (A → A → Bool) → List A → List A
unfolding insort
sorted less [] = []
sorted less (x ∷ xs) = insort less x (sorted less xs)

abbrev pub index {ℓ} : {A : Type ℓ} → List A → ℕ → Result A
index xs i = elim (get_elem? xs i) [ none ↦ err "list index out of range" | some x ↦ ok x ]

-- `ordered[midpoint - 1]` counts from the end at midpoint 0, where the list is empty.
unfoldable pub median : List Decimal → Result Decimal
unfolding sorted
median values =
    let ordered = sorted lt values in
    let midpoint = length ordered / 2 in
    if (length ordered % 2) == 0
    then (do
      raise_if (midpoint == 0) "list index out of range"
      low ← index ordered (midpoint - 1)
      high ← index ordered midpoint
      ok (div (add low high) (of_ℕ 2)))
    else index ordered midpoint

-- `candidates.index(candidate)`
unfoldable pub index_of : Decimal → List Decimal → ℕ
index_of x [] = 0
index_of x (y ∷ ys) = if eq x y then 0 else suc (index_of x ys)

-- `min(valid, key=...)`: the first of the candidates that are nearest to the median.
unfoldable pub is_nearer : Decimal → List Decimal → Decimal → Decimal → Bool
unfolding index_of
is_nearer median candidates x y =
    let dx = abs (sub x median) in
    let dy = abs (sub y median) in
    lt dx dy || (eq dx dy && ltb (index_of x candidates) (index_of y candidates))

unfoldable pub nearest : (Decimal → Decimal → Bool) → Decimal → List Decimal → Decimal
nearest nearer best [] = best
nearest nearer best (x ∷ xs) = nearest nearer (if nearer x best then x else best) xs

-- `_decimal_shift_candidate(target, median, side, entry, decimal_shift_lo, decimal_shift_hi)`
unfoldable pub decimal_shift_candidate :
    Decimal → Decimal → SignalSide → Decimal → Decimal → Decimal → Option Decimal
unfolding is_nearer nearest is_target_on_profitable_side
decimal_shift_candidate target median side entry lo hi =
    let ratio = max_of (div target median) (div median target) in
    let candidates = mul target (of_ℕ 10) ∷ div target (of_ℕ 10) ∷ [] in
    if le target (of_ℕ 0) || le median (of_ℕ 0)
    then none
    else if not (le lo ratio && le ratio hi)
    then none
    else elim (keep_if (is_target_on_profitable_side side entry) candidates) [
      | [] ↦ none
      | c ∷ rest ↦ some (nearest (is_nearer median candidates) c rest)
    ]

-- The loop over the raw targets: the corrected targets and the corrections.
unfoldable pub correct_targets :
    (Decimal → Option Decimal) → List Decimal → List Decimal × List TargetCorrection
correct_targets shift [] = ([], [])
correct_targets shift (target ∷ rest) =
    let (targets, corrections) = correct_targets shift rest in
    elim (shift target) [
      | none ↦ (target ∷ targets, corrections)
      | some c ↦ (
        c ∷ targets,
        record { original = target; corrected = c; reason = "decimal_shift" } ∷ corrections,
      )
    ]

unfoldable pub enumerate {ℓ} : {A : Type ℓ} → ℕ → List A → List (ℕ × A)
enumerate i [] = []
enumerate i (x ∷ xs) = (i, x) ∷ enumerate (suc i) xs

pub data Sanitized : Type 0 where
  accepted : SanitizedSignal → Sanitized
  rejected : RejectedSignal → Sanitized

abbrev pub reject : String → Sanitized
reject reason = rejected (record { reason = reason; alert = true })

-- Pairs of an index and a target, in the order of Python's tuples.
abbrev indexed_lt : ℕ × Decimal → ℕ × Decimal → Bool
indexed_lt (i, x) (j, y) = ltb i j || (i == j && lt x y)

abbrev pub is_empty {ℓ} : {A : Type ℓ} → List A → Bool
is_empty [] = true
is_empty (x ∷ xs) = false

-- The part of `sanitize_signal` behind the split by side: the surviving targets are thinned out to
-- the longest monotonic subsequence. `unprofitable` holds the targets that are dropped already.
unfoldable pub accept_surviving :
    ParsedEntrySignal → List TargetCorrection → List (ℕ × Decimal) → List (ℕ × Decimal) → Sanitized
unfolding sorted enumerate longest_monotonic_path
accept_surviving signal corrections [] unprofitable = reject "no_viable_targets"
accept_surviving signal corrections (s ∷ ss) unprofitable =
    let surviving = s ∷ ss in
    let kept = longest_monotonic_path signal.side (path_values surviving) in
    let is_kept = λ (p : ℕ × (ℕ × Decimal)). any (λ i. i == p.0) (path_indices kept) in
    let unkept = map (λ p. p.1) (keep_if (λ p. not (is_kept p)) (enumerate 0 surviving)) in
    let dropped = unprofitable ++ unkept in
    if is_empty kept
    then reject "no_viable_targets"
    else accepted (record {
      symbol = signal.symbol;
      side = signal.side;
      entry = signal.entry;
      stop_loss = signal.stop_loss;
      leverage = signal.leverage;
      targets_raw = signal.targets;
      targets_clean = path_values kept;
      dropped = path_values (sorted indexed_lt dropped);
      corrected = corrections;
      alert = not (is_empty dropped) || not (is_empty corrections);
    })

-- The split of the corrected targets by side, each with its index.
unfoldable pub select_targets : ParsedEntrySignal → List Decimal → List TargetCorrection → Sanitized
unfolding is_target_on_profitable_side enumerate accept_surviving
select_targets signal corrected corrections =
    let profitable =
      λ (p : ℕ × Decimal). is_target_on_profitable_side signal.side signal.entry p.1 in
    accept_surviving signal corrections (keep_if profitable (enumerate 0 corrected))
      (keep_if (λ p. not (profitable p)) (enumerate 0 corrected))

-- The part of `sanitize_signal` behind its guards.
unfoldable pub sanitize_targets : ParsedEntrySignal → Decimal → Decimal → Result Sanitized
sanitize_targets signal lo hi = do
  middle ← median signal.targets
  let shift = λ (t : Decimal). decimal_shift_candidate t middle signal.side signal.entry lo hi
  let (corrected, corrections) = correct_targets shift signal.targets
  ok (select_targets signal corrected corrections)

-- `sanitize_signal(signal, decimal_shift_lo, decimal_shift_hi)`
unfoldable pub sanitize_signal : ParsedEntrySignal → Decimal → Decimal → Result Sanitized
sanitize_signal signal lo hi = do
  raise_if (le lo (of_ℕ 0) || lt hi lo) "invalid decimal-shift range"
  if not (is_stop_loss_on_correct_side signal.side signal.entry signal.stop_loss)
      then ok (reject "wrong_side_stop_loss")
      else if is_empty signal.targets
      then ok (reject "no_viable_targets")
      else sanitize_targets signal lo hi
