-- ===== src/Core/Engine/Preparation.antt =====
-- services/core_engine/engine.py: what comes before a trade is created, the checks on the exchange
-- and the plan.
use mrrik_ai_bot.Prelude.{
  ℕ, not, List, Option, none, some, Result, ok, err, all_some, if◌then◌else◌,
}
use mrrik_ai_bot.Decimal.{Decimal, lt}
use mrrik_ai_bot.Signal.Types.{SignalSide}
use mrrik_ai_bot.Signal.Sizing.{SymbolFilters}
use mrrik_ai_bot.Exchange.{
  Exchange, call, verify_credentials, verify_withdrawals_disabled, get_usdt_balance,
  get_symbol_filters,
}
use mrrik_ai_bot.Exchange.Action.{pure, lift, ◌>>=◌, ◌>>◌}
use mrrik_ai_bot.Core.Risk.{ExecutionPlan}
use mrrik_ai_bot.Prelude.Text.{text_eq, codes}
use mrrik_ai_bot.Core.Risk.Plan.{PlanRequest, build_execution_plan, division_by_zero}
use mrrik_ai_bot.Core.Repository.{Signal}
use mrrik_ai_bot.Core.Engine.{
  CoreEngineConfig, Settings, Credentials, Rows, SkipReason, credentials_not_valid,
  withdrawals_not_disabled, insufficient_free_margin, exchange_filters_failed, Bus,
  effective_leverage, margin_of, risk_model_of, roi_of, Step, on_account, attempt, publish_skip,
}

-- What comes before the trade is created: the user is passed over, or a plan is made.
pub data Prepared : Type 0 where
  passed : Prepared
  ready : SignalSide → ExecutionPlan → Prepared

module _ (E : Exchange) (config : CoreEngineConfig) (rows : Rows) (bus : Bus) where
  abbrev pub refuse : ℕ → SkipReason → Step E Prepared
  refuse u reason = do publish_skip E bus u reason; pure passed

  abbrev pub plan_request :
      Signal → SignalSide → List Decimal → Option Settings → SymbolFilters → PlanRequest
  plan_request signal side targets settings filters = record {
    side = side;
    entry = signal.entry;
    stop_loss = signal.stop_loss;
    leverage = effective_leverage signal.leverage settings config;
    targets = targets;
    margin_usdt = margin_of config settings;
    risk_model = risk_model_of config settings;
    model2_weights = config.model2_weights;
    model3_exit_roi_pct = roi_of config settings;
    filters = filters;
    maintenance_margin_rate = config.maintenance_margin_rate;
  }

  abbrev pub with_plan : ℕ → SignalSide → Result ExecutionPlan → Step E Prepared
  with_plan u side (err e) =
      if text_eq (codes e) (codes division_by_zero)
      then lift (err e)
      else refuse u exchange_filters_failed
  with_plan u side (ok plan) = pure (ready side plan)

  -- `SignalSide(...)` raises a ValueError, and `Decimal(...)` an InvalidOperation.
  abbrev pub with_targets :
      ℕ → Signal → SymbolFilters → Option SignalSide → Option (List Decimal) → Step E Prepared
  with_targets u signal filters none targets = refuse u exchange_filters_failed
  with_targets u signal filters (some side) none = lift (err "InvalidOperation")
  with_targets u signal filters (some side) (some targets) =
      with_plan u side
        (build_execution_plan (plan_request signal side targets (rows.settings u) filters))

  abbrev pub with_filters : ℕ → Signal → Result SymbolFilters → Step E Prepared
  with_filters u signal (err e) =
      if rows.is_plan_failure e then refuse u exchange_filters_failed else lift (err e)
  with_filters u signal (ok filters) =
      with_targets u signal filters signal.side (all_some signal.targets_clean)

  unfoldable pub check_plan : ℕ → Signal → Step E Prepared
  check_plan u signal = do
    filters ← attempt E (on_account E u (call E (get_symbol_filters signal.symbol)))
    with_filters u signal filters

  unfoldable pub check_margin : ℕ → Signal → Step E Prepared
  check_margin u signal = do
    balance ← on_account E u (call E get_usdt_balance)
    if lt balance (margin_of config (rows.settings u))
        then refuse u insufficient_free_margin
        else check_plan u signal

  unfoldable pub check_withdrawals : ℕ → Signal → Step E Prepared
  check_withdrawals u signal = do
    disabled ← on_account E u (call E verify_withdrawals_disabled)
    if disabled then check_margin u signal else refuse u withdrawals_not_disabled

  -- Up to the plan, inside of the `try`.
  unfoldable pub check_keys : ℕ → Signal → Step E Prepared
  check_keys u signal = do
    valid ← on_account E u (call E verify_credentials)
    if valid then check_withdrawals u signal else refuse u credentials_not_valid

  unfoldable pub prepare : ℕ → Signal → Credentials → Step E Prepared
  prepare u signal credentials =
      if not credentials.is_decryptable
      then refuse u credentials_not_valid
      else if rows.exchange_is_created u
      then check_keys u signal
      else lift (err "exchange_factory raised")
