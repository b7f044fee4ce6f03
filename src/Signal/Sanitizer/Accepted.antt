-- ===== src/Signal/Sanitizer/Accepted.antt =====
-- shared/signal/sanitizer.py: what an accepted signal guarantees, when a signal is rejected, and
-- that `sanitize_signal` never raises over a valid decimal-shift range.
use mrrik_ai_bot.Prelude.{
  ℕ, zero, suc, ◌-◌, ◌/◌, ◌%◌, ◌<◌, ◌≡◌, ◌≢◌, refl, sym, subst, inl, inr, Bool, true, false, List,
  [], ◌∷◌, arith, All, ok, length, keep_if, ==→eq, ◌⊎◌, >>=-total, Bool-cases, >>=-eq-ok,
  ok-injective, ◌==◌,
}
use mathlib.Core.List.{map-eq-nil_iff}
use mrrik_ai_bot.Decimal.{Decimal, of_ℕ, le, lt, div, add}
use mrrik_ai_bot.Signal.Types.{SignalSide, ParsedEntrySignal, SanitizedSignal, TargetCorrection}
use mrrik_ai_bot.Signal.Sanitizer.Paths.{path_values, longest_monotonic_path}
use mrrik_ai_bot.Signal.Sanitizer.Longest.{Monotonic, Subsequence}
use mrrik_ai_bot.Signal.Sanitizer.Sound.{longest_monotonic_path-IsKept}
use mrrik_ai_bot.Signal.Sanitizer.{
  is_target_on_profitable_side, is_stop_loss_on_correct_side, sorted, insort, median, enumerate,
  Sanitized, accepted, reject, accept_surviving, select_targets, sanitize_targets, sanitize_signal,
  index, is_empty,
}

All-Subsequence :
    (P : Decimal → Type 0) (xs ys : List Decimal) → Subsequence xs ys → All P ys → All P xs
All-Subsequence P [] ys s h = tt
All-Subsequence P (x ∷ xs) [] s h = absurd s
All-Subsequence P (x ∷ xs) (y ∷ ys) (inl (e, s)) h =
    (subst P (sym e) h.0, All-Subsequence P xs ys s h.1)
All-Subsequence P (x ∷ xs) (y ∷ ys) (inr s) h = All-Subsequence P (x ∷ xs) ys s h.1

All-keep_if :
    (p : Decimal → Bool) (xs : List (ℕ × Decimal))
    → All (λ x. p x ≡ true) (path_values (keep_if (λ x. p x.1) xs))
All-keep_if p [] = tt
All-keep_if p ((i, x) ∷ xs) = elim (Bool-cases (p x)) [
  | inl h ↦ rw h (h, All-keep_if p xs)
  | inr h ↦ rw h (All-keep_if p xs)
]

-- What holds of the targets that an engine may act on.
pub record IsClean (side : SignalSide) (entry : Decimal) (targets : List Decimal) : Type 0 where
  pub monotonic_targets : Monotonic side targets
  pub profitable : All (λ t. is_target_on_profitable_side side entry t ≡ true) targets
  pub some_target : targets ≢ []

kept-IsClean :
    (side : SignalSide) (entry : Decimal) (surviving : List (ℕ × Decimal))
    → All (λ t. is_target_on_profitable_side side entry t ≡ true) (path_values surviving)
    → surviving ≢ []
    → IsClean side entry (path_values (longest_monotonic_path side (path_values surviving)))
kept-IsClean side entry [] h ne = absurd (ne refl)
kept-IsClean side entry ((i, v) ∷ vs) h ne =
    let (mono, sub, full) = longest_monotonic_path-IsKept side v (path_values vs) in
    record {
      monotonic_targets = mono;
      profitable = All-Subsequence _ _ _ sub h;
      some_target = λ e. full ((map-eq-nil_iff _).0 e);
    }

-- The fields that an accepted signal takes over.
pub record Carries (signal : ParsedEntrySignal) (r : SanitizedSignal) : Type 0 where
  pub symbol_kept : r.symbol ≡ signal.symbol
  pub side_kept : r.side ≡ signal.side
  pub entry_kept : r.entry ≡ signal.entry
  pub stop_loss_kept : r.stop_loss ≡ signal.stop_loss
  pub leverage_kept : r.leverage ≡ signal.leverage
  pub targets_raw_kept : r.targets_raw ≡ signal.targets

accept_surviving-accepted :
    (signal : ParsedEntrySignal) (cs : List TargetCorrection) (surviving un : List (ℕ × Decimal))
    (r : SanitizedSignal)
    → All
        (λ t. is_target_on_profitable_side signal.side signal.entry t ≡ true)
        (path_values surviving)
    → accept_surviving signal cs surviving un ≡ accepted r
    → Carries signal r × IsClean signal.side signal.entry r.targets_clean
unfolding accept_surviving
accept_surviving-accepted signal cs [] un r h e = cc
accept_surviving-accepted signal cs (s ∷ ss) un r h e =
    let clean = kept-IsClean signal.side signal.entry (s ∷ ss) h (λ q. cc) in ground (arith, clean)

select_targets-accepted :
    (signal : ParsedEntrySignal) (corrected : List Decimal) (cs : List TargetCorrection)
    (r : SanitizedSignal)
    → select_targets signal corrected cs ≡ accepted r
    → Carries signal r × IsClean signal.side signal.entry r.targets_clean
unfolding select_targets
select_targets-accepted signal corrected cs r e =
    accept_surviving-accepted signal cs _ _ r
      (All-keep_if (is_target_on_profitable_side signal.side signal.entry) (enumerate 0 corrected))
      e

sanitize_targets-accepted :
    (signal : ParsedEntrySignal) (lo hi : Decimal) (r : SanitizedSignal)
    → sanitize_targets signal lo hi ≡ ok (accepted r)
    → Carries signal r × IsClean signal.side signal.entry r.targets_clean
unfolding sanitize_targets
sanitize_targets-accepted signal lo hi r e =
    let (m, found, rest) = >>=-eq-ok (median signal.targets) _ e in
    select_targets-accepted signal _ _ r (ok-injective rest)

-- Whatever the channel wrote, an accepted signal has its stop loss on the losing side of the entry,
-- and at least one target; its targets lie on the profitable side and move strictly away from the
-- entry; all else is taken over from the message.
pub sanitize_signal-accepted :
    (signal : ParsedEntrySignal) (lo hi : Decimal) (r : SanitizedSignal)
    → sanitize_signal signal lo hi ≡ ok (accepted r)
    → (is_stop_loss_on_correct_side signal.side signal.entry signal.stop_loss ≡ true)
      × Carries signal r
      × IsClean signal.side signal.entry r.targets_clean
unfolding sanitize_signal
sanitize_signal-accepted signal lo hi r e = ground (arith, sanitize_targets-accepted signal lo hi r)

length-insort : (x : Decimal) (xs : List Decimal) → length (insort lt x xs) ≡ suc (length xs)
unfolding insort
length-insort x [] = refl
length-insort x (y ∷ ys) = ground (arith, length-insort x ys)

length-sorted : (xs : List Decimal) → length (sorted lt xs) ≡ length xs
unfolding sorted
length-sorted [] = refl
length-sorted (x ∷ xs) = omega (arith, length-insort x (sorted lt xs), length-sorted xs)

index-in_range : (xs : List Decimal) (i : ℕ) → i < length xs → (x : Decimal) × (index xs i ≡ ok x)
index-in_range [] i h = elim h [ ]
index-in_range (x ∷ xs) zero h = (x, refl)
index-in_range (x ∷ xs) (suc i) h = index-in_range xs i (omega arith)

-- The median of a list that is not empty.
median-total : (xs : List Decimal) → 0 < length xs → (m : Decimal) × (median xs ≡ ok m)
unfolding median
median-total xs h = elim (Bool-cases ((length (sorted lt xs) % 2) == 0)) [
  | inl even ↦
      let n = length-sorted xs in
      let half = ==→eq _ _ even in
      let (low, p) = index-in_range (sorted lt xs) (length (sorted lt xs) / 2 - 1) (omega arith) in
      let (high, q) = index-in_range (sorted lt xs) (length (sorted lt xs) / 2) (omega arith) in
      (div (add low high) (of_ℕ 2), ground arith)
  | inr odd ↦
      let n = length-sorted xs in
      let (m, p) = index-in_range (sorted lt xs) (length (sorted lt xs) / 2) (omega arith) in
      (m, ground arith)
]

sanitize_targets-total :
    (signal : ParsedEntrySignal) (lo hi : Decimal)
    → 0 < length signal.targets
    → (out : Sanitized) × (sanitize_targets signal lo hi ≡ ok out)
unfolding sanitize_targets
sanitize_targets-total signal lo hi h =
    >>=-total (median signal.targets) _ (median-total signal.targets h) (λ m. (_, refl))

targets_cases :
    (xs : List Decimal)
    → ((is_empty xs ≡ true) × (xs ≡ [])) ⊎ ((is_empty xs ≡ false) × (0 < length xs))
targets_cases [] = inl (refl, refl)
targets_cases (x ∷ xs) = inr (refl, omega arith)

-- Over a valid decimal-shift range `sanitize_signal` raises for no message at all: it accepts or
-- rejects. A stop loss on the wrong side is always rejected.
pub sanitize_signal-total :
    (signal : ParsedEntrySignal) (lo hi : Decimal)
    → le lo (of_ℕ 0) ≡ false
    → lt hi lo ≡ false
    → (out : Sanitized) × (sanitize_signal signal lo hi ≡ ok out)
      × (is_stop_loss_on_correct_side signal.side signal.entry signal.stop_loss ≡ false
          → out ≡ reject "wrong_side_stop_loss")
unfolding sanitize_signal
sanitize_signal-total signal lo hi p q =
    elim (Bool-cases (is_stop_loss_on_correct_side signal.side signal.entry signal.stop_loss)) [
      | inr wrong ↦ (reject "wrong_side_stop_loss", ground arith, λ _. refl)
      | inl right ↦ elim (targets_cases signal.targets) [
        | inl (e, _) ↦ (reject "no_viable_targets", ground arith, λ w. cc)
        | inr (e, full) ↦
            let (out, made) = sanitize_targets-total signal lo hi full in
            (out, ground arith, λ w. cc)
      ]
    ]
