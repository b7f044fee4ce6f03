-- ===== src/Core/Orders.antt =====
-- services/core_engine/orders.py
pub mod Protective
pub mod Ordered
pub mod Total
use mrrik_ai_bot.Prelude.{
  ℕ, zero, suc, ◌+◌, ◌*◌, Bool, true, false, String, List, [], ◌∷◌, ◌++◌, Option, none, some,
  Result, ok, err, ltb, ◌==◌, if◌then◌else◌,
}
use mrrik_ai_bot.Prelude.Text.{Text, text_eq}
use mrrik_ai_bot.Decimal.{Decimal, of_ℕ, le, lt, eq, sub, mul, div, abs}
use mrrik_ai_bot.Signal.Types.{SignalSide}
use mrrik_ai_bot.Exchange.{
  Exchange, World, Call, Reply, ExchangeOrder, OrderSide, OrderStatus, OrderRequest,
  PositionSnapshot, to_open, to_close, to_binance_order_side, to_binance_position_side,
  place_stop_market, place_take_profit_market, place_entry_limit, place_entry_market,
  close_position_market, cancel_open_orders, cancel_all_algo_orders, cancel_order, set_leverage,
  set_margin_type_isolated, get_position, get_open_orders, get_open_algo_orders, call, sleep,
  is_listed,
}
use mrrik_ai_bot.Exchange.Action.{Action, pure, lift, safely, ◌>>=◌, ◌>>◌}
use mrrik_ai_bot.Core.Ids.{Purpose, client_order_id}
use mrrik_ai_bot.Core.Ids

-- The fields of `Trade` and of `ExecutionPlan` that placing orders reads.
pub record PlannedLeg : Type 0 where
  pub leg_index : ℕ
  pub target_price : Decimal
  pub qty : Decimal

pub record OrderPlan : Type 0 where
  pub leverage : ℕ
  pub qty : Decimal
  pub entry_price : Decimal
  pub stop_loss : Decimal
  pub legs : List PlannedLeg

pub record TradeRef : Type 0 where
  pub id : ℕ
  pub symbol : String
  pub side : SignalSide

pub record EntryGuard : Type 0 where
  pub entry_fill_timeout_sec : ℕ
  pub entry_max_deviation_pct : Decimal

pub data OpenStatus : Type 0 where
  opened skipped error emergency_closed emergency_close_failed : OpenStatus

pub record OpenTradeResult : Type 0 where
  pub status : OpenStatus
  pub reason : Option String
  pub entry_order_id : Option Text
  pub sl_order_id : Option Text
  pub tp_order_ids : List Text

-- `_ORDER_RETRY_DELAYS_SEC` and `_CONFIRM_RETRY_DELAYS_SEC`, in milliseconds.
abbrev pub retry_delays : List ℕ
retry_delays = 200 ∷ 500 ∷ []

abbrev pub order_request : TradeRef → OrderSide → SignalSide → Text → OrderRequest
order_request trade side position_side id = record {
  symbol = trade.symbol;
  side = side;
  position_side = position_side;
  client_order_id = id;
}

abbrev pub returned : {A : Type 0} → Result A → Bool
returned (ok _) = true
returned (err _) = false

-- An exception counts as an order that is not listed.
abbrev pub found : Text → Result (List ExchangeOrder) → Bool
found id (ok orders) = is_listed id orders
found id (err e) = false

abbrev pub emergency_result : OpenStatus → String → OpenTradeResult
emergency_result status reason = record {
  status = status;
  reason = some reason;
  entry_order_id = none;
  sl_order_id = none;
  tp_order_ids = [];
}

module _ (E : Exchange) where
  -- One attempt: whether the call returned.
  unfoldable pub attempt : Call → World E → Bool × World E
  attempt c w = let (r, w') = call E c w in (returned r, w')

  -- An attempt that succeeded ends the loop, any other one goes on.
  abbrev pub or_again : (World E → Bool × World E) → Bool × World E → Bool × World E
  or_again again (true, w) = (true, w)
  or_again again (false, w) = again w

  -- `_place_stop_market_with_retry` and `_place_take_profit_with_retry`: one attempt more than there
  -- are delays, with a pause between two of them.
  unfoldable pub place_with_retry : Call → List ℕ → World E → Bool × World E
  place_with_retry c [] w = attempt c w
  place_with_retry c (d ∷ ds) w = or_again (λ v. place_with_retry c ds (sleep E d v)) (attempt c w)

  -- One look at the open orders.
  unfoldable pub look_up : String → Text → World E → Bool × World E
  look_up symbol id w = let (r, w') = call E (get_open_algo_orders symbol) w in (found id r, w')

  -- `_confirm_open_order`
  unfoldable pub confirm_open_order : String → Text → List ℕ → World E → Bool × World E
  confirm_open_order symbol id [] w = look_up symbol id w
  confirm_open_order symbol id (d ∷ ds) w =
      or_again (λ v. confirm_open_order symbol id ds (sleep E d v)) (look_up symbol id w)

  -- The cleanup behind an emergency close: what raises is logged and passed over.
  unfoldable pub cleanup : String → World E → World E
  cleanup symbol w =
      (call E (cancel_all_algo_orders symbol) (call E (cancel_open_orders symbol) w).1).1

  -- A close that returned is cleaned up behind, after any other one the loop goes on.
  unfoldable pub close_or_again :
      String → (World E → OpenTradeResult × World E) → Bool × World E → OpenTradeResult × World E
  close_or_again symbol again (true, w) =
      (emergency_result emergency_closed "stop_loss_unconfirmed_emergency_close", cleanup symbol w)
  close_or_again symbol again (false, w) = again w

  -- The attempts of `_emergency_close`
  unfoldable pub emergency_close_loop : OrderRequest → List ℕ → World E → OpenTradeResult × World E
  emergency_close_loop r [] w =
      close_or_again r.symbol
        (λ v. (
          emergency_result emergency_close_failed "stop_loss_unconfirmed_emergency_close_failed",
          v,
        ))
        (attempt (close_position_market r none) w)
  emergency_close_loop r (d ∷ ds) w =
      close_or_again r.symbol (λ v. emergency_close_loop r ds (sleep E d v))
        (attempt (close_position_market r none) w)

  -- `_emergency_close`
  unfoldable pub emergency_close :
      TradeRef → OrderSide → SignalSide → Action (World E) OpenTradeResult
  emergency_close trade close_side position_side = do
    emergency_id ← lift (client_order_id trade.id Purpose.emergency_close none)
    let request = order_request trade close_side position_side emergency_id
    safely (emergency_close_loop request retry_delays)

  unfoldable pub place_leg :
      TradeRef → OrderSide → SignalSide → PlannedLeg → Text → World E → Bool × World E
  place_leg trade close_side position_side leg id =
      let request = order_request trade close_side position_side id in
      place_with_retry (place_take_profit_market request leg.qty leg.target_price) retry_delays

  -- The loop over the legs: the ids of the take-profit orders that were placed.
  unfoldable pub place_legs :
      TradeRef → OrderSide → SignalSide → List PlannedLeg → Action (World E) (List Text)
  place_legs trade close_side position_side [] = pure []
  place_legs trade close_side position_side (leg ∷ legs) = do
    id ← lift (client_order_id trade.id Purpose.tp (some leg.leg_index))
    placed ← safely (place_leg trade close_side position_side leg id)
    ids ← place_legs trade close_side position_side legs
    pure (if placed then id ∷ ids else ids)

  -- What follows the look for the stop loss.
  unfoldable pub after_confirm :
      TradeRef → OrderPlan → SignalSide → Text → Bool → Action (World E) OpenTradeResult
  after_confirm trade plan position_side sl_id true = do
    tp_ids ← place_legs trade (to_binance_order_side trade.side to_close) position_side plan.legs
    pure (record {
      status = opened;
      reason = none;
      entry_order_id = none;
      sl_order_id = some sl_id;
      tp_order_ids = tp_ids;
    })
  after_confirm trade plan position_side sl_id false =
      emergency_close trade (to_binance_order_side trade.side to_close) position_side

  -- Whether the stop loss could be placed is not looked at: that it is listed counts.
  unfoldable pub protect :
      TradeRef → OrderPlan → SignalSide → Text → Action (World E) OpenTradeResult
  protect trade plan position_side sl_id = do
    let close_side = to_binance_order_side trade.side to_close
    let request = order_request trade close_side position_side sl_id
    safely (place_with_retry (place_stop_market request plan.qty plan.stop_loss) retry_delays)
    confirmed ← safely (confirm_open_order trade.symbol sl_id retry_delays)
    after_confirm trade plan position_side sl_id confirmed

  -- `place_protective_orders`
  unfoldable pub place_protective_orders :
      TradeRef → OrderPlan → SignalSide → Action (World E) OpenTradeResult
  place_protective_orders trade plan position_side = do
    sl_id ← lift (client_order_id trade.id Purpose.sl none)
    protect trade plan position_side sl_id
