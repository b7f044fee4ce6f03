-- ===== src/Core/Safety/Canary.antt =====
-- services/core_engine/safety.py: which margins and confirmations are let through.
use mrrik_ai_bot.Prelude.{
  ◌≡◌, refl, ap, Bool, true, false, not, ◌&&◌, [], ◌∷◌, Option, none, some, if◌then◌else◌,
}
use mrrik_ai_bot.Prelude.Text.{Text, text_eq, text_eq_sound}
use mrrik_ai_bot.Decimal.{Decimal, of_ℕ, le, lt}
use mrrik_ai_bot.Decimal.Order.{le_trans}
use mrrik_ai_bot.Core.Safety.{
  decide, enforce_canary_margin_limit, is_empty_text, require_live_canary_confirmation,
}

-- The guards, where a cap that is not positive leaves no positive margin below it.
guards :
    (a b c : Bool)
    → (b ≡ true → c ≡ true → a ≡ true)
    → (if a
        then decide false "requested margin must be positive"
        else if b
        then decide false "configured margin cap must be positive"
        else if not c
        then decide false "requested margin exceeds the live canary cap"
        else decide true "requested margin is within the live canary cap").allowed
      ≡ (not a && c)
guards true b c h = refl
guards false true true h = cc (h refl refl)
guards false true false h = refl
guards false false true h = refl
guards false false false h = refl

-- A margin is allowed exactly when it is positive and not above the cap, so that the separate
-- guard on the cap changes no more than the reason that is given.
pub enforce_canary_margin_limit-allowed :
    (requested cap : Decimal)
    → (enforce_canary_margin_limit requested cap).allowed
      ≡ (lt (of_ℕ 0) requested && le requested cap)
unfolding enforce_canary_margin_limit lt
enforce_canary_margin_limit-allowed requested cap =
    guards (le requested (of_ℕ 0)) (le cap (of_ℕ 0)) (le requested cap)
      λ b c. le_trans requested cap (of_ℕ 0) c b

-- A confirmation is allowed only when it is the required text, and that is not empty.
pub require_live_canary_confirmation-allowed :
    (provided : Option Text) (required : Text)
    → (require_live_canary_confirmation provided required).allowed ≡ true
    → (provided ≡ some required) × (is_empty_text required ≡ false)
unfolding require_live_canary_confirmation
require_live_canary_confirmation-allowed provided [] h = cc
require_live_canary_confirmation-allowed none (c ∷ cs) h = cc
require_live_canary_confirmation-allowed (some p) (c ∷ cs) h = go (text_eq p (c ∷ cs)) refl h
  where
    go :
        (b : Bool)
        → text_eq p (c ∷ cs) ≡ b
        → (if not b
            then decide false "live canary confirmation does not match"
            else decide true "live canary confirmation matches exactly").allowed
          ≡ true
        → (some p ≡ some (c ∷ cs)) × (is_empty_text (c ∷ cs) ≡ false)
    go true e h = (ap some (text_eq_sound p (c ∷ cs) e), refl)
    go false e h = cc
