-- ===== src/Core/Trades.antt =====
-- services/core_engine/repository.py: the changes of state that a trade goes through, on the fields
-- of shared/models/core.py that they and services/core_engine/lifecycle.py read. Times are left out.
use mrrik_ai_bot.Prelude.{
  ℕ, Bool, true, false, String, List, [], ◌∷◌, ◌++◌, Option, some, Result, ok, err, ◌==◌, map,
  if◌then◌else◌,
}
use mrrik_ai_bot.Prelude.Sets.{sorted_set}
use mrrik_ai_bot.Prelude.Text.{Text}
use mrrik_ai_bot.Decimal.{Decimal}
use mrrik_ai_bot.Signal.Types.{SignalSide}

-- The column `status` of a leg: open, filled or canceled.
pub data LegStatus : Type 0 where
  leg_open leg_filled leg_canceled : LegStatus

pub record TradeLeg : Type 0 where
  pub leg_index : ℕ
  pub target_price : Decimal
  pub qty : Decimal
  pub status : LegStatus
  pub tp_order_id : Option Text

-- The column `status` of a trade: pending_entry, open, closed, skipped or error.
pub data TradeStatus : Type 0 where
  trade_pending_entry trade_open trade_closed trade_skipped trade_error : TradeStatus

-- `closed_reason`
pub data ClosedReason : Type 0 where
  all_tp be sl model3_exit liquidation : ClosedReason
  aborted_no_protection reconciled_closed_unknown : ClosedReason

-- `entry` and `stop_loss` are those of the trade's signal.
pub record Trade : Type 0 where
  pub id : ℕ
  pub signal_id : Option ℕ
  pub user_id : Option ℕ
  pub symbol : String
  pub side : SignalSide
  pub leverage : ℕ
  pub margin_usdt : Decimal
  pub notional_usdt : Decimal
  pub qty : Decimal
  pub liq_price : Option Decimal
  pub entry : Decimal
  pub stop_loss : Decimal
  pub status : TradeStatus
  pub legs : List TradeLeg
  pub touched_tps : List ℕ
  pub entry_order_id : Option Text
  pub sl_order_id : Option Text
  pub closed_reason : Option ClosedReason
  pub realized_pnl_usdt : Option Decimal
  pub realized_roi_pct : Option Decimal

abbrev pub is_filled : LegStatus → Bool
is_filled leg_filled = true
is_filled _ = false

-- The first leg with the index is filled; whether there is one, and whether it was open before.
pub data Fill : Type 0 where
  missing : Fill
  already : Fill
  now_filled : List TradeLeg → Fill

abbrev after_leg : TradeLeg → Fill → Fill
after_leg leg missing = missing
after_leg leg already = already
after_leg leg (now_filled legs) = now_filled (leg ∷ legs)

unfoldable pub fill_leg : ℕ → List TradeLeg → Fill
fill_leg k [] = missing
fill_leg k (leg ∷ legs) =
    let rest = fill_leg k legs in
    if leg.leg_index == k
    then if is_filled leg.status
      then already
      else now_filled (record leg { status = leg_filled } ∷ legs)
    else after_leg leg rest

-- `mark_leg_filled(trade, leg_index)`
unfoldable pub mark_leg_filled : Trade → ℕ → Result Trade
mark_leg_filled trade k = elim (fill_leg k trade.legs) [
  | missing ↦ err "trade leg does not exist"
  | already ↦ ok trade
  | now_filled legs ↦
      ok (record trade { legs = legs; touched_tps = sorted_set (trade.touched_tps ++ k ∷ []) })
]

-- `set_trade_sl_order(trade, sl_order_id)`
abbrev pub set_trade_sl_order : Trade → Text → Trade
set_trade_sl_order trade id = record trade { sl_order_id = some id }

abbrev pub cancel_status : LegStatus → LegStatus
cancel_status leg_open = leg_canceled
cancel_status status = status

abbrev pub cancel_leg : TradeLeg → TradeLeg
cancel_leg leg = record leg { status = cancel_status leg.status }

-- `close_trade(trade, closed_reason, realized_pnl_usdt, realized_roi_pct, touched_tps)`
unfoldable pub close_trade : Trade → ClosedReason → Decimal → Decimal → List ℕ → Trade
close_trade trade reason pnl roi touched = record trade {
  status = trade_closed;
  closed_reason = some reason;
  realized_pnl_usdt = some pnl;
  realized_roi_pct = some roi;
  touched_tps = sorted_set touched;
  legs = map cancel_leg trade.legs;
}
