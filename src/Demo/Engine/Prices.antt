-- ===== src/Demo/Engine/Prices.antt =====
-- services/demo_engine/engine.py: `handle_mark_price`.
use mrrik_ai_bot.Prelude.{
  ℕ, ◌+◌, Bool, true, false, List, [], ◌∷◌, ◌++◌, Option, none, some, Result, leb, map, keep_if,
  if◌then◌else◌,
}
use mrrik_ai_bot.Prelude.Sets.{sorted_set}
use mrrik_ai_bot.Prelude.Text.{Text, upper}
use mrrik_ai_bot.Decimal.{Decimal, of_ℕ, div, le, sum}
use mrrik_ai_bot.Exchange.Action.{pure, lift, ◌>>=◌, ◌>>◌}
use mrrik_ai_bot.Demo.TradeLogic.{DemoLegPlan, Closure, OpenTrade, evaluate_price_tick}
use mrrik_ai_bot.Demo.Store.{
  DemoAccount, DemoTrade, DemoTradeLeg, LegStatus, leg_filled, Store, Signal, find_account,
  get_or_create_demo_account, list_open_demo_trades_by_symbol, mark_demo_legs_filled,
  close_demo_trade,
}
use mrrik_ai_bot.Demo.Engine.{
  Settings, DemoEngineConfig, demo_closed, Rows, Bus, Session, DemoHandleResult, processed, ignored,
  no_open_trades, change, try_change, publish, notify, trade_object, format_demo_close_message,
  roi_of,
}

-- `sorted(demo_trade.legs, key=lambda item: item.leg_index)`, which keeps the order of equal keys.
unfoldable pub insert_leg : DemoTradeLeg → List DemoTradeLeg → List DemoTradeLeg
insert_leg leg [] = leg ∷ []
insert_leg leg (l ∷ legs) =
    let rest = insert_leg leg legs in
    if leb leg.leg_index l.leg_index then leg ∷ l ∷ legs else l ∷ rest

unfoldable pub sorted_legs : List DemoTradeLeg → List DemoTradeLeg
sorted_legs [] = []
sorted_legs (leg ∷ legs) = insert_leg leg (sorted_legs legs)

-- `_plans_from_trade`
unfoldable pub plans_from_trade : DemoTrade → List DemoLegPlan
unfolding sorted_legs insert_leg
plans_from_trade t =
    let total = sum (map (λ (leg : DemoTradeLeg). leg.qty) t.legs) in
    if le total (of_ℕ 0) then [] else map (plan_of total) (sorted_legs t.legs)
  where
    plan_of : Decimal → DemoTradeLeg → DemoLegPlan
    plan_of total leg = record {
      leg_index = leg.leg_index;
      target_price = leg.target_price;
      fraction = div leg.qty total;
      qty = leg.qty;
    }

abbrev is_filled : LegStatus → Bool
is_filled leg_filled = true
is_filled _ = false

-- `touched_tps`: those of the trade and the indices of its filled legs.
unfoldable pub touched_of : DemoTrade → List ℕ
touched_of t = sorted_set (
    t.touched_tps
    ++ map (λ (leg : DemoTradeLeg). leg.leg_index)
        (keep_if (λ (leg : DemoTradeLeg). is_filled leg.status) t.legs))

-- `3 if not demo_trade.legs else 1`
abbrev pub model_of_legs : List DemoTradeLeg → ℕ
model_of_legs [] = 3
model_of_legs (leg ∷ legs) = 1

-- The arguments of `evaluate_price_tick`.
unfoldable pub open_trade_of :
    DemoEngineConfig → Option Settings → DemoTrade → Signal → Decimal → OpenTrade
open_trade_of config settings t signal liq_price = record {
  side = t.side;
  entry = signal.entry;
  original_stop_loss = signal.stop_loss;
  leverage = t.leverage;
  margin_usdt = t.margin_usdt;
  liq_price = liq_price;
  risk_model = model_of_legs t.legs;
  model3_exit_roi_pct = roi_of config settings;
  move_sl_to_be_after_tp1 = config.move_sl_to_be_after_tp1;
  open_legs = plans_from_trade t;
  touched_tps = touched_of t;
  maintenance_margin_rate = config.maintenance_margin_rate;
}

-- The fields that an object of the session has by now.
abbrev pub object_or : DemoAccount → Option DemoAccount → DemoAccount
object_or listed none = listed
object_or listed (some account) = account

-- `repository.close_demo_trade`, with what the decision says.
abbrev pub closing : DemoTrade → Closure → List ℕ → Store → Result Store
closing t c touched =
    close_demo_trade t c.closed_reason c.realized_roi_pct c.realized_pnl_usdt touched

module _ (config : DemoEngineConfig) (rows : Rows) (bus : Bus) where
  -- `accounts.get(user_id)`, or the account of the repository. The dictionary holds the objects that
  -- were listed at the start, whose fields are those of the tables.
  unfoldable pub account_of : List DemoAccount → ℕ → Store → DemoAccount × Store
  account_of listed u s = elim (find_account u listed) [
    | some account ↦ (object_or account (find_account u s.accounts), s)
    | none ↦ get_or_create_demo_account u config.start_balance_usdt s
  ]

  -- The notice of a closed trade, and one more for `closed_count`.
  unfoldable pub notify_closed : ℕ → DemoTrade → Session ℕ
  notify_closed u closed_trade = do
    message ← lift (format_demo_close_message closed_trade)
    notify bus (rows.telegram_id u) message
    pure 1

  unfoldable pub publish_closed : ℕ → DemoTrade → DemoAccount → Session ℕ
  publish_closed u closed_trade account = do
    publish bus (demo_closed closed_trade account)
    notify_closed u closed_trade

  abbrev pub announce_closed : List DemoAccount → ℕ → DemoTrade → Session ℕ
  announce_closed listed u closed_trade = do
    account ← change (account_of listed u)
    publish_closed u closed_trade account

  -- What follows once the tables have the closed trade: the closure is announced.
  unfoldable pub announce : List DemoAccount → ℕ → ℕ → Session ℕ
  announce listed i u = do closed_trade ← trade_object i; announce_closed listed u closed_trade

  unfoldable pub close_and_announce : List DemoAccount → ℕ → ℕ → Closure → List ℕ → Session ℕ
  close_and_announce listed i u c touched = do
    t ← trade_object i
    try_change (closing t c touched)
    announce listed i u

  abbrev pub after_decision : List DemoAccount → ℕ → ℕ → Option Closure → List ℕ → Session ℕ
  after_decision listed i u none touched = pure 0
  after_decision listed i u (some c) touched = close_and_announce listed i u c touched

  -- The tick of a trade whose signal, liquidation price and user are there.
  unfoldable pub tick_trade :
      Decimal → List DemoAccount → DemoTrade → Signal → Decimal → ℕ → Session ℕ
  tick_trade price listed t signal liq_price u = do
    decision ←
        lift (evaluate_price_tick (open_trade_of config (rows.settings u) t signal liq_price) price)
    change λ s. (tt, mark_demo_legs_filled t.id decision.filled_leg_indices s)
    after_decision listed t.id u decision.closure decision.touched_tps

  abbrev pub signal_of : Option ℕ → Option Signal
  signal_of none = none
  signal_of (some k) = rows.signals 0 k

  abbrev pub tick_known :
      Decimal → List DemoAccount → DemoTrade → Option Signal → Option Decimal → Option ℕ → Session ℕ
  tick_known price listed t (some signal) (some liq_price) (some u) =
      tick_trade price listed t signal liq_price u
  tick_known price listed t _ _ _ = pure 0

  -- One round of the loop, with how many trades it closed.
  unfoldable pub tick_one : Decimal → List DemoAccount → ℕ → Session ℕ
  tick_one price listed i = do
    t ← trade_object i
    tick_known price listed t (signal_of t.signal_id) t.liq_price t.user_id

  unfoldable pub tick_all : Decimal → List DemoAccount → List ℕ → Session ℕ
  tick_all price listed [] = pure 0
  tick_all price listed (i ∷ trades) = do
    now_closed ← tick_one price listed i
    later ← tick_all price listed trades
    pure (now_closed + later)

  abbrev pub tick_listed : Decimal → List DemoAccount → List ℕ → Session DemoHandleResult
  tick_listed price listed [] = pure (ignored no_open_trades)
  tick_listed price listed (i ∷ trades) = do
    closed_count ← tick_all price listed (i ∷ trades)
    pure (processed closed_count)

  -- `handle_mark_price`
  unfoldable pub handle_mark_price : Text → Decimal → Session DemoHandleResult
  handle_mark_price symbol price w =
      tick_listed price w.store.accounts (list_open_demo_trades_by_symbol (upper symbol) w.store) w
