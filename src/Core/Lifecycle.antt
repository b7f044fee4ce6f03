-- ===== src/Core/Lifecycle.antt =====
-- services/core_engine/lifecycle.py: what the fill of a take-profit or of a stop loss does to its
-- trade. The functions return the trade with the changes that the repository makes to it.
pub mod BreakEven
pub mod Closing
pub mod Stopped
use mrrik_ai_bot.Prelude.{
  ℕ, Bool, true, false, not, ◌&&◌, ◌||◌, List, [], ◌∷◌, Option, none, some, Result, ok, err, ◌==◌,
  all, map, keep_if, if◌then◌else◌,
}
use mrrik_ai_bot.Prelude.Sets.{sorted_set}
use mrrik_ai_bot.Prelude.Text.{Text, text_eq}
use mrrik_ai_bot.Decimal.{Decimal, of_ℕ, add, sub, mul, div, neg, sum, max_of, le, lt, eq}
use mrrik_ai_bot.Signal.Pnl.{capped_loss_usdt_on_liquidation, pnl_usdt_for_fraction}
use mrrik_ai_bot.Exchange.{
  Exchange, World, OrderRequest, cancel_algo_order, place_stop_market, call, to_close,
  to_binance_order_side, to_binance_position_side,
}
use mrrik_ai_bot.Exchange.Action.{Action, pure, lift, safely, ◌>>=◌, ◌>>◌}
use mrrik_ai_bot.Core.Ids.{Purpose, client_order_id}
use mrrik_ai_bot.Core.Orders.{retry_delays, place_with_retry, confirm_open_order}
use mrrik_ai_bot.Core.Trades.{
  Trade, TradeLeg, trade_closed, leg_open, leg_filled, leg_canceled, TradeStatus, LegStatus,
  ClosedReason, all_tp, be, sl, liquidation, is_filled, mark_leg_filled, set_trade_sl_order,
  close_trade,
}

-- The fields of `UserStreamEvent` that closing a trade reads.
pub record FillEvent : Type 0 where
  pub client_order_id : Text
  pub last_filled_price : Option Decimal
  pub realized_pnl : Option Decimal

-- `LifecycleResult.status`
pub data LifecycleStatus : Type 0 where
  ignored leg_fill closed : LifecycleStatus

abbrev pub Outcome : Type 0
Outcome = LifecycleStatus × Trade

-- `last_filled_price`, where it is positive.
abbrev pub positive_price : Option Decimal → Option Decimal
positive_price none = none
positive_price (some p) = if lt (of_ℕ 0) p then some p else none

-- The price at which a leg leaves the position, if it leaves it: `at` is the price of the fill
-- for the leg that was filled just now.
abbrev exit_price : Option (ℕ × Decimal) → Option Decimal → TradeLeg → Option Decimal
exit_price none remaining leg = if is_filled leg.status then some leg.target_price else remaining
exit_price (some (k, p)) remaining leg =
    if is_filled leg.status
    then some (if leg.leg_index == k then p else leg.target_price)
    else remaining

-- The share of a leg is added, unless working it out raises.
abbrev pub add_share : Result Decimal → Decimal → (Decimal → Result Decimal) → Result Decimal
add_share (err e) pnl rest = err e
add_share (ok share) pnl rest = rest (add pnl share)

-- `_blended_pnl`: the loop.
unfoldable pub blended_from :
    Trade → Option (ℕ × Decimal) → Option Decimal → Decimal → List TradeLeg → Result Decimal
blended_from trade at remaining pnl [] = ok pnl
blended_from trade at remaining pnl (leg ∷ legs) = elim (exit_price at remaining leg) [
  | none ↦ blended_from trade at remaining pnl legs
  | some price ↦
      add_share
        (pnl_usdt_for_fraction trade.margin_usdt (div leg.qty trade.qty) trade.side trade.entry
          price trade.leverage)
        pnl (λ total. blended_from trade at remaining total legs)
]

-- Without legs the whole position leaves at the remaining exit price.
abbrev pub blended_sum :
    Trade → Option (ℕ × Decimal) → Option Decimal → List TradeLeg → Result Decimal
blended_sum trade at remaining (leg ∷ legs) = blended_from trade at remaining (of_ℕ 0) (leg ∷ legs)
blended_sum trade at none [] = ok (of_ℕ 0)
blended_sum trade at (some price) [] =
    pnl_usdt_for_fraction trade.margin_usdt (of_ℕ 1) trade.side trade.entry price trade.leverage

abbrev pub at_least : Decimal → Result Decimal → Result Decimal
at_least limit (err e) = err e
at_least limit (ok pnl) = ok (max_of pnl limit)

-- A price of the trade's signal, where the trade has one.
abbrev pub of_signal : Option ℕ → Decimal → Result Decimal
of_signal none price = err "trade is missing its signal"
of_signal (some signal_id) price = ok price

-- `_entry_price(trade)`
abbrev pub entry_price : Trade → Result Decimal
entry_price trade = of_signal trade.signal_id trade.entry

abbrev pub with_entry : Result Decimal → Result Decimal → Result Decimal
with_entry (err e) pnl = err e
with_entry (ok entry) pnl = pnl

-- `_blended_pnl(trade, remaining_exit_price, filled_leg_exit_prices)`
unfoldable pub blended_pnl : Trade → Option (ℕ × Decimal) → Option Decimal → Result Decimal
blended_pnl trade at remaining = with_entry (entry_price trade) (
    if le trade.qty (of_ℕ 0)
    then err "trade quantity must be positive"
    else at_least (neg trade.margin_usdt) (blended_sum trade at remaining trade.legs))

-- `_realized_pnl_for_close`
abbrev pub realized_pnl_for_close :
    Option Decimal → Trade → Option (ℕ × Decimal) → Option Decimal → Result Decimal
realized_pnl_for_close (some pnl) trade at remaining = ok pnl
realized_pnl_for_close none trade at remaining = blended_pnl trade at remaining

-- `_roi_from_pnl(trade, pnl)`, where dividing by a margin of zero raises.
unfoldable pub roi_from_pnl : Trade → Decimal → Result Decimal
roi_from_pnl trade pnl =
    if eq trade.margin_usdt (of_ℕ 0)
    then err "DivisionByZero"
    else ok (mul (div pnl trade.margin_usdt) (of_ℕ 100))

abbrev pub price_at : ℕ → Option Decimal → Option (ℕ × Decimal)
price_at k none = none
price_at k (some p) = some (k, p)

abbrev pub filled_legs : Trade → List TradeLeg
filled_legs trade = keep_if (λ (leg : TradeLeg). is_filled leg.status) trade.legs

-- `trade.legs and len(filled_legs) == len(trade.legs)`
abbrev pub all_filled : List TradeLeg → Bool
all_filled [] = false
all_filled (leg ∷ legs) = all (λ (l : TradeLeg). is_filled l.status) (leg ∷ legs)

-- `Decimal(trade.qty) - sum(... if item.status == "filled")`
abbrev pub remaining_qty : Trade → Decimal
remaining_qty trade = sub trade.qty (sum (map (λ (leg : TradeLeg). leg.qty) (filled_legs trade)))

module _ (E : Exchange) where
  -- `with suppress(Exception): await exchange.cancel_algo_order(...)`; a missing or empty id is
  -- passed over.
  abbrev pub cancel_algo : Option Text → World E → World E
  cancel_algo none w = w
  cancel_algo (some []) w = w
  cancel_algo (some (c ∷ cs)) w = (call E (cancel_algo_order (c ∷ cs)) w).1

  -- `_cancel_open_tps`
  unfoldable pub cancel_open_tps : List TradeLeg → World E → World E
  cancel_open_tps [] w = w
  cancel_open_tps (leg ∷ legs) w = cancel_open_tps legs (elim leg.status [
    | leg_open ↦ cancel_algo leg.tp_order_id w
    | leg_filled ↦ w
    | leg_canceled ↦ w
  ])

  -- The last leg is filled: the trade closes.
  unfoldable pub close_all_tp : FillEvent → Trade → ℕ → Action (World E) Outcome
  close_all_tp event trade k = do
    safely (λ w. (tt, cancel_algo trade.sl_order_id w))
    pnl ← lift (
        realized_pnl_for_close event.realized_pnl trade
          (price_at k (positive_price event.last_filled_price)) none)
    roi ← lift (roi_from_pnl trade pnl)
    let touched = map (λ (leg : TradeLeg). leg.leg_index) (filled_legs trade)
    pure (closed, close_trade trade all_tp pnl roi touched)

  -- `if old_sl_id and old_sl_id != be_id`
  abbrev pub replaced_stop : Option Text → Text → Option Text
  replaced_stop none be_id = none
  replaced_stop (some []) be_id = none
  replaced_stop (some (c ∷ cs)) be_id = if text_eq (c ∷ cs) be_id then none else some (c ∷ cs)

  abbrev pub stop_request : Trade → Text → OrderRequest
  stop_request trade id = record {
    symbol = trade.symbol;
    side = to_binance_order_side trade.side to_close;
    position_side = to_binance_position_side trade.side;
    client_order_id = id;
  }

  -- `placed and await _confirm_open_order(...)`
  abbrev pub confirm_if : Bool → Trade → Text → World E → Bool × World E
  confirm_if false trade id w = (false, w)
  confirm_if true trade id w = confirm_open_order E trade.symbol id retry_delays w

  -- The stop is replaced only once the new one is confirmed.
  abbrev pub replace_stop : Bool → Trade → Text → World E → Trade × World E
  replace_stop false trade be_id w = (trade, w)
  replace_stop true trade be_id w =
      (set_trade_sl_order trade be_id, cancel_algo (replaced_stop trade.sl_order_id be_id) w)

  -- `_place_break_even_stop`, the look for it, and the exchange of the stops.
  unfoldable pub place_break_even : Trade → Decimal → Text → World E → Trade × World E
  place_break_even trade remaining be_id w =
      let (placed, w1) =
        place_with_retry E (place_stop_market (stop_request trade be_id) remaining trade.entry)
          retry_delays w in
      let (confirmed, w2) = confirm_if placed trade be_id w1 in
      replace_stop confirmed trade be_id w2

  -- The first take-profit is filled: the stop moves to the entry.
  unfoldable pub move_to_break_even : Trade → Action (World E) Outcome
  move_to_break_even trade =
      if le (remaining_qty trade) (of_ℕ 0) then pure (leg_fill, trade) else (do
        entry ← lift (entry_price trade)
        be_id ← lift (client_order_id trade.id Purpose.be_sl none)
        moved ← safely (place_break_even trade (remaining_qty trade) be_id)
        pure (leg_fill, moved))

  abbrev pub is_closed : TradeStatus → Bool
  is_closed trade_closed = true
  is_closed _ = false

  -- `handle_user_stream_event`, for the fill of a leg of the trade.
  unfoldable pub handle_leg_fill : FillEvent → Bool → Trade → TradeLeg → Action (World E) Outcome
  handle_leg_fill event move_sl_to_be_after_tp1 trade leg =
      if is_closed trade.status || is_filled leg.status then pure (ignored, trade) else (do
        filled_trade ← lift (mark_leg_filled trade leg.leg_index)
        if all_filled filled_trade.legs
            then close_all_tp event filled_trade leg.leg_index
            else if move_sl_to_be_after_tp1 && leg.leg_index == 1
            then move_to_break_even filled_trade
            else pure (leg_fill, filled_trade))

  -- `stop_price`
  abbrev pub stop_price : Option Decimal → Decimal → Decimal
  stop_price none stop_loss = stop_loss
  stop_price (some p) stop_loss = p

  -- `handle_user_stream_event`, for the fill of the trade's stop loss.
  unfoldable pub handle_stop_fill : FillEvent → Trade → Action (World E) Outcome
  handle_stop_fill event trade = if is_closed trade.status then pure (ignored, trade) else (do
    safely (λ w. (tt, cancel_open_tps trade.legs w))
    entry ← lift (entry_price trade)
    let price = stop_price (positive_price event.last_filled_price) trade.stop_loss
    be_id ← lift (client_order_id trade.id Purpose.be_sl none)
    pnl ← lift (realized_pnl_for_close event.realized_pnl trade none (some price))
    roi ← lift (roi_from_pnl trade pnl)
    let reason = if text_eq event.client_order_id be_id || eq price trade.entry then be else sl
    pure (closed, close_trade trade reason pnl roi trade.touched_tps))

  -- `handle_liquidation_update`
  unfoldable pub handle_liquidation_update : Trade → Action (World E) Outcome
  handle_liquidation_update trade = do
    pnl ← lift (capped_loss_usdt_on_liquidation trade.margin_usdt)
    pure (closed, close_trade trade liquidation pnl (neg (of_ℕ 100)) trade.touched_tps)
