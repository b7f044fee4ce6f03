-- ===== src/Core/Repository.antt =====
-- services/core_engine/repository.py: the tables that opening a trade reads and writes. A trade that
-- the code holds as an object of the session is held by its key. Times and locks are left out.
use mrrik_ai_bot.Prelude.{
  ℕ, suc, Bool, true, false, ◌&&◌, List, [], ◌∷◌, ◌++◌, Option, none, some, String, ◌==◌, any,
  length, map, keep_if, if◌then◌else◌,
}
use mrrik_ai_bot.Prelude.Text.{Text, text_eq}
use mrrik_ai_bot.Decimal.{Decimal}
use mrrik_ai_bot.Signal.Types.{SignalSide}
use mrrik_ai_bot.Core.Risk.{ExecutionPlan, ExecutionLegPlan}
use mrrik_ai_bot.Core.Trades.{
  Trade, TradeLeg, leg_open, TradeStatus, trade_pending_entry, trade_open,
}

-- The columns of a signal that the core engine reads.
pub record Signal : Type 0 where
  pub id : ℕ
  pub symbol : String
  pub side : Option SignalSide
  pub entry : Decimal
  pub stop_loss : Decimal
  pub leverage : ℕ
  pub targets_clean : List (Option Decimal)
  pub is_accepted : Bool

pub record Tables : Type 0 where
  pub trades : List Trade
  pub next_trade_id : ℕ
  pub processed_events : List Text

-- `mark_event_processed(event_id)`
unfoldable pub mark_event_processed : Text → Tables → Bool × Tables
mark_event_processed id s =
    if any (text_eq id) s.processed_events
    then (false, s)
    else (true, record s { processed_events = id ∷ s.processed_events })

-- `status in _ACTIVE_TRADE_STATUSES`
abbrev pub is_active : TradeStatus → Bool
is_active trade_pending_entry = true
is_active trade_open = true
is_active _ = false

abbrev pub has_key : Option ℕ → ℕ → Bool
has_key none k = false
has_key (some i) k = i == k

-- `count_open_trades(user_id)`
unfoldable pub count_open_trades : ℕ → Tables → ℕ
count_open_trades u s =
    length (keep_if (λ (t : Trade). has_key t.user_id u && is_active t.status) s.trades)

-- `has_open_trade_for_signal(user_id, signal_id)`
unfoldable pub has_open_trade_for_signal : ℕ → ℕ → Tables → Bool
has_open_trade_for_signal u k s =
    any (λ (t : Trade). has_key t.user_id u && has_key t.signal_id k && is_active t.status) s.trades

abbrev pub planned_leg : ExecutionLegPlan → TradeLeg
planned_leg leg = record {
  leg_index = leg.leg_index;
  target_price = leg.target_price;
  qty = leg.qty;
  status = leg_open;
  tp_order_id = none;
}

-- The row that `create_trade_from_plan` adds.
unfoldable pub pending_trade : ℕ → ℕ → Signal → SignalSide → ExecutionPlan → Trade
pending_trade id u signal side plan = record {
  id = id;
  signal_id = some signal.id;
  user_id = some u;
  symbol = signal.symbol;
  side = side;
  leverage = plan.leverage;
  margin_usdt = plan.margin_usdt;
  notional_usdt = plan.notional_usdt;
  qty = plan.qty;
  liq_price = some plan.liq_price;
  entry = signal.entry;
  stop_loss = signal.stop_loss;
  status = trade_pending_entry;
  legs = map planned_leg plan.legs;
  touched_tps = [];
  entry_order_id = none;
  sl_order_id = none;
  closed_reason = none;
  realized_pnl_usdt = none;
  realized_roi_pct = none;
}

-- `create_trade_from_plan`
unfoldable pub create_trade_from_plan :
    ℕ → Signal → SignalSide → ExecutionPlan → Tables → ℕ × Tables
create_trade_from_plan u signal side plan s = (
  s.next_trade_id,
  record s {
    trades = s.trades ++ pending_trade s.next_trade_id u signal side plan ∷ [];
    next_trade_id = suc s.next_trade_id;
  },
)

-- Assignments to the fields of the trade object with the key.
unfoldable pub update_trade : ℕ → (Trade → Trade) → List Trade → List Trade
update_trade i f [] = []
update_trade i f (t ∷ trades) = (if t.id == i then f t else t) ∷ update_trade i f trades

-- The status of the trade object with the key.
unfoldable pub status_of : ℕ → List Trade → Option TradeStatus
status_of i [] = none
status_of i (t ∷ trades) = if t.id == i then some t.status else status_of i trades

-- `set_trade_entry_order(trade, entry_order_id)`, for a result that has an order id.
abbrev pub set_trade_entry_order : Option Text → Trade → Trade
set_trade_entry_order none t = t
set_trade_entry_order (some id) t = record t { entry_order_id = some id }

-- `mark_trade_opened(trade, sl_order_id)`
unfoldable pub mark_trade_opened : Option Text → Trade → Trade
mark_trade_opened sl_order_id t = record t { status = trade_open; sl_order_id = sl_order_id }

-- `mark_trade_status(trade, status)`
unfoldable pub mark_trade_status : TradeStatus → Trade → Trade
mark_trade_status status t = record t { status = status }

-- `set_leg_tp_order(legs_by_index[leg_index], tp_order_id)`
unfoldable pub set_leg_tp_order : ℕ → Text → Trade → Trade
set_leg_tp_order k id t = record t {
  legs =
      map
        (λ (leg : TradeLeg).
          if leg.leg_index == k then record leg { tp_order_id = some id } else leg)
        t.legs;
}
