-- ===== src/Core/Safety.antt =====
-- services/core_engine/safety.py: what is asked before a first run with real money.
pub mod Canary
use mrrik_ai_bot.Prelude.{
  Bool, true, false, not, String, List, [], ◌∷◌, Option, none, some, Result, raise_if,
  if◌then◌else◌,
}
use mrrik_ai_bot.Prelude.Text.{Text, text_eq}
use mrrik_ai_bot.Decimal.{Decimal, of_ℕ, le, lt}

pub record LiveCanaryDecision : Type 0 where
  pub allowed : Bool
  pub reason : String

abbrev pub decide : Bool → String → LiveCanaryDecision
decide allowed reason = record { allowed = allowed; reason = reason }

unfoldable pub assert_withdrawal_disabled : Bool → Result (Unit {0})
assert_withdrawal_disabled verified =
    raise_if (not verified) "withdrawal-disabled API access must be verified"

unfoldable pub enforce_canary_margin_limit : Decimal → Decimal → LiveCanaryDecision
enforce_canary_margin_limit requested_margin_usdt max_margin_usdt =
    if le requested_margin_usdt (of_ℕ 0)
    then decide false "requested margin must be positive"
    else if le max_margin_usdt (of_ℕ 0)
    then decide false "configured margin cap must be positive"
    else if lt max_margin_usdt requested_margin_usdt
    then decide false "requested margin exceeds the live canary cap"
    else decide true "requested margin is within the live canary cap"

-- `provided != required`, where nothing may have been provided.
abbrev pub matches : Option Text → Text → Bool
matches none required = false
matches (some provided) required = text_eq provided required

abbrev pub is_empty_text : Text → Bool
is_empty_text [] = true
is_empty_text (c ∷ cs) = false

unfoldable pub require_live_canary_confirmation : Option Text → Text → LiveCanaryDecision
require_live_canary_confirmation provided required =
    if is_empty_text required
    then decide false "required confirmation text is not configured"
    else if not (matches provided required)
    then decide false "live canary confirmation does not match"
    else decide true "live canary confirmation matches exactly"
