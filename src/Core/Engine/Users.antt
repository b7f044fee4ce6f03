-- ===== src/Core/Engine/Users.antt =====
-- services/core_engine/engine.py: what `handle_signal_created` does for one user.
use mrrik_ai_bot.Prelude.{
  ℕ, Bool, true, false, ◌&&◌, List, [], ◌∷◌, Option, none, some, String, Result, ok, err, map, any,
  if◌then◌else◌,
}
use mrrik_ai_bot.Prelude.Text.{Text, text_eq}
use mrrik_ai_bot.Decimal.{of_ℕ}
use mrrik_ai_bot.Signal.Types.{SignalSide}
use mrrik_ai_bot.Exchange.{
  Exchange, World, call, close_position_market, cancel_open_orders, to_close, to_binance_order_side,
  to_binance_position_side,
}
use mrrik_ai_bot.Exchange.Action.{Action, pure, lift, ◌>>=◌, ◌>>◌}
use mrrik_ai_bot.Core.Ids.{Purpose, client_order_id}
use mrrik_ai_bot.Core.Risk.{ExecutionPlan, ExecutionLegPlan}
use mrrik_ai_bot.Core.Orders.{
  OrderPlan, PlannedLeg, TradeRef, OpenTradeResult, OpenStatus, opened, skipped, error,
  emergency_closed, emergency_close_failed, order_request,
}
use mrrik_ai_bot.Core.Entry.{place_initial_orders}
use mrrik_ai_bot.Core.Trades.{
  Trade, TradeStatus, trade_open, trade_skipped, trade_error, aborted_no_protection, close_trade,
}
use mrrik_ai_bot.Core.Repository.{
  Signal, create_trade_from_plan, set_trade_entry_order, mark_trade_opened, mark_trade_status,
  set_leg_tp_order, status_of,
}
use mrrik_ai_bot.Core.Engine.{
  CoreEngineConfig, User, Credentials, Rows, SkipReason, missing_credentials, credentials_not_valid,
  entry_guard_failed, exchange_operation_failed, order_failed, trade_error_event,
  trade_closed_event, aborted_notice, trade_opened_event, opened_notice, Bus, precheck_reason, Step,
  on_account, on_tables, on_trade, publish, attempt, publish_safely, publish_admin_alerts,
  publish_error, publish_skip,
}
use mrrik_ai_bot.Core.Engine.Preparation.{Prepared, passed, ready, prepare}

-- How one user is counted; a trade whose events failed to be published counts as an error too.
pub data Counted : Type 0 where
  counted_opened : (failed_to_publish : Bool) → Counted
  counted_skipped : Counted
  counted_error : Counted

abbrev planned : ExecutionLegPlan → PlannedLeg
planned leg = record { leg_index = leg.leg_index; target_price = leg.target_price; qty = leg.qty }

-- The fields of the plan that the orders read.
abbrev pub orders_of : ExecutionPlan → OrderPlan
orders_of plan = record {
  leverage = plan.leverage;
  qty = plan.qty;
  entry_price = plan.entry_price;
  stop_loss = plan.stop_loss;
  legs = map planned plan.legs;
}

abbrev pub trade_ref : ℕ → Signal → SignalSide → TradeRef
trade_ref i signal side = record { id = i; symbol = signal.symbol; side = side }

abbrev pub aborted : Trade → Trade
aborted t = close_trade t aborted_no_protection (of_ℕ 0) (of_ℕ 0) []

abbrev pub is_open : Option TradeStatus → Bool
is_open (some trade_open) = true
is_open _ = false

module _ (E : Exchange) (config : CoreEngineConfig) (rows : Rows) (bus : Bus) where
  -- `_close_after_protection_failure`, whose exceptions are only logged.
  abbrev close_position : TradeRef → Action (World E) (Unit {0})
  close_position trade = do
    let side = to_binance_order_side trade.side to_close
    close_id ← lift (client_order_id trade.id Purpose.close none)
    call E (
        close_position_market
          (order_request trade side (to_binance_position_side trade.side) close_id) none)
    call E (cancel_open_orders trade.symbol)

  unfoldable pub close_after_protection_failure : TradeRef → World E → World E
  close_after_protection_failure trade w = (close_position trade w).1

  abbrev pub close_quietly : ℕ → TradeRef → Step E (Unit {0})
  close_quietly u trade = on_account E u λ w. (ok tt, close_after_protection_failure trade w)

  -- The loop over the legs of the plan, after `mark_trade_opened`.
  abbrev pub record_if_placed : ℕ → List Text → ℕ → Text → Step E (Unit {0})
  record_if_placed i placed k tp_id =
      if any (text_eq tp_id) placed then on_trade E i (set_leg_tp_order k tp_id) else pure tt

  abbrev pub record_tp_order : ℕ → List Text → ℕ → Result Text → Step E (Unit {0})
  record_tp_order i placed k (err e) = lift (err e)
  record_tp_order i placed k (ok tp_id) = record_if_placed i placed k tp_id

  unfoldable pub record_tp_orders : ℕ → List Text → List ExecutionLegPlan → Step E (Unit {0})
  record_tp_orders i placed [] = pure tt
  record_tp_orders i placed (leg ∷ legs) = do
    record_tp_order i placed leg.leg_index (client_order_id i Purpose.tp (some leg.leg_index))
    record_tp_orders i placed legs

  abbrev pub announce : ℕ → ℕ → Step E (Unit {0})
  announce u i = do publish E bus (trade_opened_event i); publish E bus (opened_notice u i)

  abbrev pub late : {A : Type 0} → Result A → Counted
  late (ok a) = counted_opened false
  late (err e) = counted_opened true

  -- The branches on the status of the orders.
  unfoldable pub finish_opened : ℕ → ℕ → ExecutionPlan → OpenTradeResult → Step E Counted
  finish_opened u i plan result = do
    on_trade E i (mark_trade_opened result.sl_order_id)
    record_tp_orders i result.tp_order_ids plan.legs
    published ← attempt E (announce u i)
    pure (late published)

  unfoldable pub finish_skipped : ℕ → ℕ → Step E Counted
  finish_skipped u i = do
    on_trade E i (mark_trade_status trade_skipped)
    publish_skip E bus u entry_guard_failed
    pure counted_skipped

  unfoldable pub finish_emergency_closed : ℕ → ℕ → Step E Counted
  finish_emergency_closed u i = do
    on_trade E i aborted
    publish_safely E bus (trade_closed_event i)
    publish_safely E bus (aborted_notice u i)
    publish_admin_alerts E bus i config.admin_telegram_ids
    pure counted_error

  unfoldable pub finish_close_failed : ℕ → ℕ → Option String → Step E Counted
  finish_close_failed u i reason = do
    on_trade E i (mark_trade_opened none)
    publish_safely E bus (trade_error_event u (order_failed reason))
    publish_admin_alerts E bus i config.admin_telegram_ids
    pure counted_error

  unfoldable pub finish_error : ℕ → ℕ → TradeRef → Option String → Step E Counted
  finish_error u i trade reason = do
    close_quietly u trade
    on_trade E i (mark_trade_status trade_error)
    publish_error E bus u (order_failed reason)
    pure counted_error

  abbrev pub finish :
      ℕ → ℕ → TradeRef → ExecutionPlan → OpenTradeResult → OpenStatus → Step E Counted
  finish u i trade plan result opened = finish_opened u i plan result
  finish u i trade plan result skipped = finish_skipped u i
  finish u i trade plan result error = finish_error u i trade result.reason
  finish u i trade plan result emergency_closed = finish_emergency_closed u i
  finish u i trade plan result emergency_close_failed = finish_close_failed u i result.reason

  abbrev pub after_orders : ℕ → ℕ → TradeRef → ExecutionPlan → OpenTradeResult → Step E Counted
  after_orders u i trade plan result = do
    on_trade E i (set_trade_entry_order result.entry_order_id)
    finish u i trade plan result result.status

  -- From the orders on, inside of the `try`.
  unfoldable pub execute : ℕ → ℕ → TradeRef → ExecutionPlan → Step E Counted
  execute u i trade plan = do
    result ←
        on_account E u
          (place_initial_orders E trade (orders_of plan) config.entry_mode config.entry_guard)
    after_orders u i trade plan result

  -- The handler of the exceptions, for a trade that there is.
  abbrev pub fail : ℕ → ℕ → Step E Counted
  fail u i = do
    on_trade E i (mark_trade_status trade_error)
    publish_error E bus u exchange_operation_failed
    pure counted_error

  unfoldable pub recover : ℕ → ℕ → TradeRef → Step E Counted
  recover u i trade d =
      if is_open (status_of i d.tables.trades)
      then fail u i d
      else (close_quietly u trade >> fail u i) d

  abbrev pub recover_if : ℕ → ℕ → TradeRef → Result Counted → Step E Counted
  recover_if u i trade (ok counted) = pure counted
  recover_if u i trade (err e) = recover u i trade

  unfoldable pub open_trade : ℕ → Signal → SignalSide → ExecutionPlan → Step E Counted
  open_trade u signal side plan = do
    i ← on_tables E (create_trade_from_plan u signal side plan)
    outcome ← attempt E (execute u i (trade_ref i signal side) plan)
    recover_if u i (trade_ref i signal side) outcome

  abbrev pub after_prepare : ℕ → Signal → Result Prepared → Step E Counted
  after_prepare u signal (err e) = do
    publish_error E bus u exchange_operation_failed
    pure counted_error
  after_prepare u signal (ok passed) = pure counted_skipped
  after_prepare u signal (ok (ready side plan)) = open_trade u signal side plan

  -- A user with working credentials.
  unfoldable pub trade_for : ℕ → Signal → Credentials → Step E Counted
  trade_for u signal credentials = do
    prepared ← attempt E (prepare E config rows bus u signal credentials)
    after_prepare u signal prepared

  abbrev pub skip_user : ℕ → SkipReason → Step E Counted
  skip_user u reason = do publish_skip E bus u reason; pure counted_skipped

  abbrev pub with_credentials : ℕ → Signal → Option Credentials → Step E Counted
  with_credentials u signal none = skip_user u missing_credentials
  with_credentials u signal (some credentials) =
      if credentials.is_valid && credentials.scope_verified
      then trade_for u signal credentials
      else skip_user u credentials_not_valid

  abbrev pub unless_refused : ℕ → Signal → Option SkipReason → Step E Counted
  unless_refused u signal (some reason) = skip_user u reason
  unless_refused u signal none = with_credentials u signal (rows.credentials u)

  -- One round of the loop over the users.
  unfoldable pub handle_user : ℕ → Signal → User → Step E Counted
  handle_user signal_id signal user d =
      unless_refused user.id signal (precheck_reason config rows user signal_id d.tables) d
