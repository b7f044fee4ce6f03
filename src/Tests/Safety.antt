-- ===== src/Tests/Safety.antt =====
-- services/core_engine/safety.py on concrete margins and texts.
use mrrik_ai_bot.Prelude.{◌≡◌, refl, true, false, ◌&&◌, some, err}
use mrrik_ai_bot.Prelude.Text.{Text, codes, text_eq}
use mrrik_ai_bot.Decimal.{of_ℕ, le, lt}
use mrrik_ai_bot.Core.Safety.{
  enforce_canary_margin_limit, assert_withdrawal_disabled, require_live_canary_confirmation,
  is_empty_text,
}
use mrrik_ai_bot.Core.Safety.Canary.{
  enforce_canary_margin_limit-allowed, require_live_canary_confirmation-allowed,
}

enforce_canary_margin_limit-allowed_example :
    (enforce_canary_margin_limit (of_ℕ 5) (of_ℕ 10)).allowed
    ≡ (lt (of_ℕ 0) (of_ℕ 5) && le (of_ℕ 5) (of_ℕ 10))
enforce_canary_margin_limit-allowed_example = enforce_canary_margin_limit-allowed (of_ℕ 5) (of_ℕ 10)

small_margin : (enforce_canary_margin_limit (of_ℕ 5) (of_ℕ 10)).allowed ≡ true
unfolding enforce_canary_margin_limit lt le
small_margin = refl

no_cap : (enforce_canary_margin_limit (of_ℕ 5) (of_ℕ 0)).allowed ≡ false
unfolding enforce_canary_margin_limit lt le
no_cap = refl

abbrev yes : Text
yes = codes "I UNDERSTAND"

confirmed : (require_live_canary_confirmation (some yes) yes).allowed ≡ true
unfolding require_live_canary_confirmation text_eq
confirmed = refl

require_live_canary_confirmation-allowed_example :
    (some yes ≡ some yes) × (is_empty_text yes ≡ false)
require_live_canary_confirmation-allowed_example =
    require_live_canary_confirmation-allowed (some yes) yes confirmed

unverified :
    assert_withdrawal_disabled false ≡ err "withdrawal-disabled API access must be verified"
unfolding assert_withdrawal_disabled
unverified = refl
