-- ===== src/Core/Engine/Settled/Preparing.antt =====
-- services/core_engine/engine.py: what comes before the trade changes no table.
use mrrik_ai_bot.Prelude.{
  ℕ, ◌≡◌, refl, ◌∙◌, not, List, Option, none, some, Result, ok, err, if-holds, if◌then◌else◌,
  all_some,
}
use mrrik_ai_bot.Decimal.{Decimal, lt}
use mrrik_ai_bot.Signal.Types.{SignalSide}
use mrrik_ai_bot.Signal.Sizing.{SymbolFilters}
use mrrik_ai_bot.Exchange.{
  Exchange, call, verify_credentials, verify_withdrawals_disabled, get_usdt_balance,
  get_symbol_filters,
}
use mrrik_ai_bot.Exchange.Action.{Keeps, >>=-Keeps, pure, ◌>>=◌}
use mrrik_ai_bot.Core.Risk.{ExecutionPlan}
use mrrik_ai_bot.Core.Repository.{Signal}
use mrrik_ai_bot.Core.Engine.{
  CoreEngineConfig, Credentials, Rows, Bus, SkipReason, Desk, Step, on_account, attempt,
  publish_skip, margin_of, insufficient_free_margin, withdrawals_not_disabled,
  credentials_not_valid, exchange_filters_failed,
}
use mrrik_ai_bot.Prelude.Text.{text_eq, codes}
use mrrik_ai_bot.Core.Risk.Plan.{division_by_zero}
use mrrik_ai_bot.Core.Engine.Preparation.{
  Prepared, passed, refuse, with_plan, with_targets, with_filters, check_plan, check_margin,
  check_withdrawals, check_keys, prepare,
}
use mrrik_ai_bot.Core.Engine.Untouched.{publish_skip-Untouched}

-- The same tables.
abbrev pub SameTables : {E : Exchange} → Desk E → Desk E → Type 0
SameTables d d' = d'.tables ≡ d.tables

SameTables-trans :
    {E : Exchange} (a b c : Desk E) → SameTables a b → SameTables b c → SameTables a c
SameTables-trans a b c h k = k ∙ h

module _ (E : Exchange) (config : CoreEngineConfig) (rows : Rows) (bus : Bus) where
  abbrev Same : {A : Type 0} → Step E A → Type 0
  Same m = Keeps SameTables m

  abbrev same_then :
      {A B : Type 0} (m : Step E A) (k : A → Step E B)
      → Same m
      → ((a : A) → Same (k a))
      → Same (m >>= k)
  same_then m k = >>=-Keeps SameTables SameTables-trans m k

  refuse-Same : (u : ℕ) (reason : SkipReason) → Same (refuse E config rows bus u reason)
  refuse-Same u reason =
      same_then (publish_skip E bus u reason) (λ _. pure passed)
        (λ d. let h = publish_skip-Untouched E bus u reason d in h.tables) λ _ d. refl

  with_plan-Same :
      (u : ℕ) (side : SignalSide) (plan : Result ExecutionPlan)
      → Same (with_plan E config rows bus u side plan)
  with_plan-Same u side (err e) =
      if-holds (λ (m : Step E Prepared). Same m) (text_eq (codes e) (codes division_by_zero)) _ _
        (λ _ d. refl) λ _. refuse-Same u exchange_filters_failed
  with_plan-Same u side (ok plan) = λ d. refl

  with_targets-Same :
      (u : ℕ) (signal : Signal) (filters : SymbolFilters) (side : Option SignalSide)
      (targets : Option (List Decimal))
      → Same (with_targets E config rows bus u signal filters side targets)
  with_targets-Same u signal filters none targets d = refuse-Same u exchange_filters_failed d
  with_targets-Same u signal filters (some side) none d = refl
  with_targets-Same u signal filters (some side) (some targets) d = with_plan-Same u side _ d

  with_filters-Same :
      (u : ℕ) (signal : Signal) (filters : Result SymbolFilters)
      → Same (with_filters E config rows bus u signal filters)
  with_filters-Same u signal (err e) =
      if-holds (λ (m : Step E Prepared). Same m) (rows.is_plan_failure e) _ _
        (λ _. refuse-Same u exchange_filters_failed) (λ _ d. refl)
  with_filters-Same u signal (ok filters) =
      with_targets-Same u signal filters signal.side (all_some signal.targets_clean)

  check_plan-Same : (u : ℕ) (signal : Signal) → Same (check_plan E config rows bus u signal)
  unfolding check_plan
  check_plan-Same u signal =
      same_then (attempt E (on_account E u (call E (get_symbol_filters signal.symbol))))
        (with_filters E config rows bus u signal) (λ d. refl) (with_filters-Same u signal)

  check_margin-Same : (u : ℕ) (signal : Signal) → Same (check_margin E config rows bus u signal)
  unfolding check_margin
  check_margin-Same u signal =
      same_then (on_account E u (call E get_usdt_balance))
        (λ balance.
          if lt balance (margin_of config (rows.settings u))
          then refuse E config rows bus u insufficient_free_margin
          else check_plan E config rows bus u signal)
        (λ d. refl)
        λ balance.
          if-holds (λ (m : Step E Prepared). Same m)
            (lt balance (margin_of config (rows.settings u))) _ _
            (λ _. refuse-Same u insufficient_free_margin) (λ _. check_plan-Same u signal)

  check_withdrawals-Same :
      (u : ℕ) (signal : Signal) → Same (check_withdrawals E config rows bus u signal)
  unfolding check_withdrawals
  check_withdrawals-Same u signal =
      same_then (on_account E u (call E verify_withdrawals_disabled))
        (λ disabled.
          if disabled
          then check_margin E config rows bus u signal
          else refuse E config rows bus u withdrawals_not_disabled)
        (λ d. refl)
        λ disabled.
          if-holds (λ (m : Step E Prepared). Same m) disabled _ _ (λ _. check_margin-Same u signal)
            (λ _. refuse-Same u withdrawals_not_disabled)

  check_keys-Same : (u : ℕ) (signal : Signal) → Same (check_keys E config rows bus u signal)
  unfolding check_keys
  check_keys-Same u signal =
      same_then (on_account E u (call E verify_credentials))
        (λ valid.
          if valid
          then check_withdrawals E config rows bus u signal
          else refuse E config rows bus u credentials_not_valid)
        (λ d. refl)
        λ valid.
          if-holds (λ (m : Step E Prepared). Same m) valid _ _
            (λ _. check_withdrawals-Same u signal) (λ _. refuse-Same u credentials_not_valid)

  pub prepare-Same :
      (u : ℕ) (signal : Signal) (c : Credentials) → Same (prepare E config rows bus u signal c)
  unfolding prepare
  prepare-Same u signal c =
      if-holds (λ (m : Step E Prepared). Same m) (not c.is_decryptable) _ _
        (λ _. refuse-Same u credentials_not_valid)
        λ _.
          if-holds (λ (m : Step E Prepared). Same m) (rows.exchange_is_created u) _ _
            (λ _. check_keys-Same u signal) (λ _ d. refl)
