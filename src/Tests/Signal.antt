-- ===== src/Tests/Signal.antt =====
-- shared/signal on concrete messages.
use mrrik_ai_bot.Prelude.{◌≡◌, ◌≤◌, refl, inl, inr, true, false, List, [], ◌∷◌, ok, length}
use mrrik_ai_bot.Decimal.{Decimal, of_ℕ, decimal, le, lt, div, mul, abs, sub, add, max_of}
use mrrik_ai_bot.Signal.Types.{long, ParsedEntrySignal, SanitizedSignal}
use mrrik_ai_bot.Signal.Sanitizer.Paths.{longest_monotonic_path, monotonic}
use mrrik_ai_bot.Signal.Sanitizer.Longest.{Monotonic, longest_monotonic_path-longest}
use mrrik_ai_bot.Signal.Sanitizer.Sound.{IsKept, longest_monotonic_path-IsKept}
use mrrik_ai_bot.Signal.Sanitizer.Accepted.{
  Carries, IsClean, sanitize_signal-accepted, sanitize_signal-total,
}
use mrrik_ai_bot.Signal.Sanitizer.{
  Sanitized, accepted, reject, sanitize_signal, sanitize_targets, median, decimal_shift_candidate,
  correct_targets, select_targets, is_stop_loss_on_correct_side,
}

-- The third target of "0.071, 0.072, 0.74, 0.0715" has lost a zero, and the fourth is out of order.
abbrev message : ParsedEntrySignal
message = record {
  symbol = "HBARUSDT";
  side = long;
  entry = decimal 700 4;
  stop_loss = decimal 680 4;
  leverage = 20;
  targets = decimal 71 3 ∷ decimal 72 3 ∷ decimal 74 2 ∷ decimal 715 4 ∷ [];
  raw_text = "";
}

abbrev shifted : Decimal
shifted = decimal 7400000000000000000000000000 29

abbrev cleaned : SanitizedSignal
cleaned = record {
  symbol = "HBARUSDT";
  side = long;
  entry = decimal 700 4;
  stop_loss = decimal 680 4;
  leverage = 20;
  targets_raw = decimal 71 3 ∷ decimal 72 3 ∷ decimal 74 2 ∷ decimal 715 4 ∷ [];
  targets_clean = decimal 71 3 ∷ decimal 72 3 ∷ shifted ∷ [];
  dropped = decimal 715 4 ∷ [];
  corrected =
      record { original = decimal 74 2; corrected = shifted; reason = "decimal_shift" } ∷ [];
  alert = true;
}

message-cleaned : sanitize_signal message (of_ℕ 5) (of_ℕ 20) ≡ ok (accepted cleaned)
unfolding sanitize_signal le lt is_stop_loss_on_correct_side sanitize_targets median select_targets
    correct_targets decimal_shift_candidate div add max_of mul abs sub monotonic
message-cleaned = refl

sanitize_signal-accepted_example :
    (is_stop_loss_on_correct_side long (decimal 700 4) (decimal 680 4) ≡ true)
    × Carries message cleaned
    × IsClean long (decimal 700 4) cleaned.targets_clean
sanitize_signal-accepted_example =
    sanitize_signal-accepted message (of_ℕ 5) (of_ℕ 20) cleaned message-cleaned

above_zero : le (of_ℕ 5) (of_ℕ 0) ≡ false
unfolding le
above_zero = refl

in_order : lt (of_ℕ 20) (of_ℕ 5) ≡ false
unfolding lt
in_order = refl

sanitize_signal-total_example :
    (out : Sanitized) × (sanitize_signal message (of_ℕ 5) (of_ℕ 20) ≡ ok out)
    × (is_stop_loss_on_correct_side long (decimal 700 4) (decimal 680 4) ≡ false
        → out ≡ reject "wrong_side_stop_loss")
sanitize_signal-total_example = sanitize_signal-total message (of_ℕ 5) (of_ℕ 20) above_zero in_order

abbrev ladder : List Decimal
ladder = of_ℕ 1 ∷ of_ℕ 9 ∷ of_ℕ 2 ∷ of_ℕ 3 ∷ []

abbrev rising : List Decimal
rising = of_ℕ 1 ∷ of_ℕ 2 ∷ of_ℕ 3 ∷ []

up : Monotonic long rising
unfolding monotonic lt
up = (refl, (refl, tt))

longest_monotonic_path-longest_example : length rising ≤ length (longest_monotonic_path long ladder)
longest_monotonic_path-longest_example =
    longest_monotonic_path-longest long ladder rising (inl (refl, inr (inl (refl, inl (refl, tt)))))
      up

longest_monotonic_path-IsKept_example : IsKept long ladder (longest_monotonic_path long ladder)
longest_monotonic_path-IsKept_example =
    longest_monotonic_path-IsKept long (of_ℕ 1) (of_ℕ 9 ∷ of_ℕ 2 ∷ of_ℕ 3 ∷ [])
