-- ===== src/Core/Entry.antt =====
-- services/core_engine/orders.py: `place_initial_orders` and the wait for the entry fill.
pub mod Waiting
use mrrik_ai_bot.Prelude.{
  ℕ, zero, suc, ◌+◌, ◌*◌, Bool, true, false, not, ◌&&◌, ◌||◌, String, List, [], ◌∷◌, Option, none,
  some, Result, ok, err, ltb, ◌==◌, if◌then◌else◌,
}
use mrrik_ai_bot.Prelude.Text.{Text, text_eq}
use mrrik_ai_bot.Decimal.{Decimal, of_ℕ, le, lt, eq, sub, mul, div, abs}
use mrrik_ai_bot.Signal.Types.{SignalSide}
use mrrik_ai_bot.Exchange.{
  Exchange, World, ExchangeOrder, OrderStatus, filled, canceled, expired, rejected,
  PositionSnapshot, to_open, to_binance_order_side, to_binance_position_side, place_entry_limit,
  place_entry_market, cancel_order, set_leverage, set_margin_type_isolated, get_position,
  get_open_orders, call, sleep,
}
use mrrik_ai_bot.Exchange.Action.{Action, pure, lift, ◌>>=◌, ◌>>◌}
use mrrik_ai_bot.Core.Ids.{Purpose, client_order_id}
use mrrik_ai_bot.Core.Orders.{
  OrderPlan, TradeRef, EntryGuard, OpenTradeResult, opened, skipped, error, order_request,
  place_protective_orders,
}

-- `_deviation_pct(current, entry) > limit`; the deviation is infinite for an entry of zero or less.
unfoldable pub deviates : Decimal → Decimal → Decimal → Bool
deviates current entry limit =
    le entry (of_ℕ 0) || lt limit (mul (div (abs (sub current entry)) entry) (of_ℕ 100))

-- `latest_mark[0]`, or else the position's mark price.
abbrev current_price : Option Decimal → Option PositionSnapshot → Option Decimal
current_price (some price) position = some price
current_price none none = none
current_price none (some p) = p.mark_price

abbrev price_deviates : Option Decimal → Decimal → Decimal → Bool
price_deviates none entry limit = false
price_deviates (some price) entry limit = deviates price entry limit

abbrev has_quantity : Option PositionSnapshot → Bool
has_quantity none = false
has_quantity (some p) = not (eq p.qty (of_ℕ 0))

abbrev is_filled : OrderStatus → Bool
is_filled filled = true
is_filled _ = false

-- The status of the first open order with the id, if it is FILLED.
unfoldable pub matching_filled : Text → List ExchangeOrder → Bool
matching_filled id [] = false
matching_filled id (o ∷ os) =
    if text_eq o.client_order_id id then is_filled o.status else matching_filled id os

-- How a round of the wait ends: it returns, or it goes on to the next round.
abbrev pub verdict : Decimal → Decimal → Option Decimal → Option PositionSnapshot → Option Bool
verdict entry limit mark position =
    if price_deviates (current_price mark position) entry limit
    then some false
    else if has_quantity position
    then some true
    else none

-- The rounds of 100 milliseconds that a timeout leaves room for.
abbrev pub rounds : ℕ → ℕ
rounds timeout_sec = 10 * timeout_sec

module _ (E : Exchange) where
  -- The end of a round: without a verdict yet, the open orders decide.
  unfoldable pub next_round : TradeRef → Text → Option Bool → Action (World E) (Option Bool)
  next_round trade entry_id (some b) = pure (some b)
  next_round trade entry_id none = do
    orders ← call E (get_open_orders trade.symbol)
    pure (if matching_filled entry_id orders then some true else none)

  -- `latest_mark[0]`
  abbrev pub read_mark : Action (World E) (Option Decimal)
  read_mark w = (ok (E.latest_mark w.state), w)

  -- One round: the position, the price, and then the open orders.
  unfoldable pub poll_entry :
      TradeRef → OrderPlan → Text → Decimal → SignalSide → Action (World E) (Option Bool)
  poll_entry trade plan entry_id limit position_side = do
    position ← call E (get_position trade.symbol position_side)
    mark ← read_mark
    next_round trade entry_id (verdict plan.entry_price limit mark position)

  -- How a round goes on: by returning, or by a pause and the rest of the wait.
  abbrev pub after_round :
      (World E → Result Bool × World E) → Result (Option Bool) × World E → Result Bool × World E
  after_round rest (err e, w) = (err e, w)
  after_round rest (ok (some b), w) = (ok b, w)
  after_round rest (ok none, w) = rest (sleep E 100 w)

  -- `while time.monotonic() < deadline`: when the fuel has run out the answer is that of a deadline
  -- that has passed.
  unfoldable pub wait_loop :
      ℕ → ℕ → TradeRef → OrderPlan → Text → Decimal → SignalSide → Action (World E) Bool
  wait_loop zero deadline trade plan entry_id limit side w = (ok false, w)
  wait_loop (suc fuel) deadline trade plan entry_id limit side w =
      if ltb (E.now w.state) deadline
      then after_round (wait_loop fuel deadline trade plan entry_id limit side)
          (poll_entry trade plan entry_id limit side w)
      else (ok false, w)

  abbrev wait_open :
      ExchangeOrder → TradeRef → OrderPlan → EntryGuard → SignalSide → Action (World E) Bool
  wait_open entry_order trade plan guard position_side w =
      if guard.entry_fill_timeout_sec == 0
      then (ok false, w)
      else if lt guard.entry_max_deviation_pct (of_ℕ 0)
      then (ok false, w)
      else wait_loop (rounds guard.entry_fill_timeout_sec)
          (E.now w.state + 1000 * guard.entry_fill_timeout_sec) trade plan
          entry_order.client_order_id guard.entry_max_deviation_pct position_side w

  -- `_wait_for_entry_fill`
  unfoldable pub wait_for_entry_fill :
      OrderStatus
      → ExchangeOrder
      → TradeRef
      → OrderPlan
      → EntryGuard
      → SignalSide
      → Action (World E) Bool
  wait_for_entry_fill filled entry_order trade plan guard position_side w = (ok true, w)
  wait_for_entry_fill canceled entry_order trade plan guard position_side w = (ok false, w)
  wait_for_entry_fill expired entry_order trade plan guard position_side w = (ok false, w)
  wait_for_entry_fill rejected entry_order trade plan guard position_side w = (ok false, w)
  wait_for_entry_fill _ entry_order trade plan guard position_side w =
      wait_open entry_order trade plan guard position_side w

pub data EntryMode : Type 0 where
  limit market unsupported : EntryMode

abbrev pub refused : OpenTradeResult
refused = record {
  status = error;
  reason = some "unsupported entry mode";
  entry_order_id = none;
  sl_order_id = none;
  tp_order_ids = [];
}

abbrev pub guard_failed : Text → OpenTradeResult
guard_failed order_id = record {
  status = skipped;
  reason = some "entry guard failed";
  entry_order_id = some order_id;
  sl_order_id = none;
  tp_order_ids = [];
}

module _ (E : Exchange) where
  -- The entry order of the mode; `none` for a mode that is not supported.
  unfoldable pub place_entry :
      EntryMode → TradeRef → OrderPlan → Text → Action (World E) (Option ExchangeOrder)
  place_entry limit trade plan order_id = do
    let side = to_binance_order_side trade.side to_open
    let request = order_request trade side (to_binance_position_side trade.side) order_id
    order ← call E (place_entry_limit request plan.qty plan.entry_price)
    pure (some order)
  place_entry market trade plan order_id = do
    let side = to_binance_order_side trade.side to_open
    let request = order_request trade side (to_binance_position_side trade.side) order_id
    order ← call E (place_entry_market request plan.qty)
    pure (some order)
  place_entry unsupported trade plan order_id = pure none

  -- What follows the entry order: cancel it, or protect the position.
  unfoldable pub after_entry :
      TradeRef → OrderPlan → EntryGuard → Text → ExchangeOrder → Action (World E) OpenTradeResult
  after_entry trade plan guard order_id entry_order = do
    let position_side = to_binance_position_side trade.side
    entered ← wait_for_entry_fill E entry_order.status entry_order trade plan guard position_side
    if entered
        then (do
          protected ← place_protective_orders E trade plan position_side
          pure (record protected { entry_order_id = some order_id }))
        else (do call E (cancel_order trade.symbol order_id); pure (guard_failed order_id))

  -- `place_initial_orders`
  unfoldable pub place_initial_orders :
      TradeRef → OrderPlan → EntryMode → EntryGuard → Action (World E) OpenTradeResult
  place_initial_orders trade plan entry_mode guard = do
    call E (set_leverage trade.symbol plan.leverage)
    call E (set_margin_type_isolated trade.symbol)
    order_id ← lift (client_order_id trade.id Purpose.entry none)
    entry_order ← place_entry entry_mode trade plan order_id
    elim entry_order [
      | none ↦ pure refused
      | some order ↦ after_entry trade plan guard order_id order
    ]
