-- ===== src/Tests/DemoEngine.antt =====
-- services/demo_engine on concrete tables, signals and prices.
use mrrik_ai_bot.Prelude.{
  ℕ, zero, suc, ◌≡◌, ◌≤◌, refl, true, false, List, [], ◌∷◌, Option, none, some, ok, ◌==◌,
  if◌then◌else◌, arith,
}
use mrrik_ai_bot.Prelude.Text.{codes}
use mrrik_ai_bot.Decimal.{of_ℕ, decimal}
use mrrik_ai_bot.Signal.Types.{long}
use mrrik_ai_bot.Demo.TradeLogic.Opening.{Realism}
use mrrik_ai_bot.Demo.Store.{
  DemoTrade, leg_open, trade_open, trade_closed, Signal, find_trade, is_open_for,
}
use mrrik_ai_bot.Demo.Store.Frozen.{IsStore}
use mrrik_ai_bot.Demo.Store.Moves.{Reach}
use mrrik_ai_bot.Demo.Engine.{DemoEngineConfig, Rows, Bus, World, processed}
use mrrik_ai_bot.Demo.Engine.Prices.{
  tick_all, tick_one, tick_trade, open_trade_of, close_and_announce, account_of, announce,
  insert_leg, notify_closed, plans_from_trade, publish_closed, sorted_legs, touched_of,
}
use mrrik_ai_bot.Demo.Engine.{trade_object, format_demo_close_message, notify, publish}
use mrrik_ai_bot.Demo.Store.{
  list_open_demo_trades_by_symbol, mark_demo_legs_filled, close_demo_trade, closed_trade,
  find_account, update_account, update_trade, get_or_create_demo_account,
}
use mrrik_ai_bot.Demo.TradeLogic.{evaluate_price_tick, crosses_liquidation, liquidated}
use mrrik_ai_bot.Prelude.Text.{text_eq, upper}
use mrrik_ai_bot.Prelude.Sets.{elem, insert, sorted_set}
use mrrik_ai_bot.Signal.Pnl.{capped_loss_usdt_on_liquidation}
use mrrik_ai_bot.Decimal.{
  lt, le, add, digit_count, div, dropped_digits, eq, exact_add, excess, fix, mul, neg,
  round_half_even, sub, sum, sum_from,
}
use mrrik_ai_bot.Demo.Engine.Prices.{handle_mark_price}
use mrrik_ai_bot.Demo.Engine.Signals.{natural}
use mrrik_ai_bot.Demo.Engine.Service.{Input, message, mark_price, signal_created, serve}
use mrrik_ai_bot.Demo.Engine.Refines.NewSignals.{IsKeyed}
use mrrik_ai_bot.Demo.Engine.Refines.Inputs.{serve-Reach, serve-Rests, serve-single}
use mrrik_ai_bot.Demo.Engine.Announced.{Accounted}
use mrrik_ai_bot.Demo.Engine.Announced.Ticks.{handle_mark_price-Accounted}
use mrrik_ai_bot.Demo.Store.Frames.{count_if}
use mrrik_ai_bot.Demo.Stats.{get_demo_stats, compute_demo_stats}
use mrrik_ai_bot.Demo.Stats.Recount.{Recounted, compute_demo_stats-Recounted}

abbrev realism : Realism
realism = record { include_commission = false; include_funding = false; include_slippage = false }

abbrev config : DemoEngineConfig
config = record {
  start_balance_usdt = of_ℕ 1000;
  fixed_margin_usdt = of_ℕ 10;
  risk_model = 1;
  model2_weights = [];
  model3_exit_roi_pct = of_ℕ 50;
  move_sl_to_be_after_tp1 = true;
  maintenance_margin_rate = decimal 5 3;
  realism = realism;
  signal_lookup_retry_delays = 50 ∷ [];
}

abbrev signal : Signal
signal = record {
  id = 4;
  symbol = codes "ETHUSDT";
  side = some long;
  entry = of_ℕ 100;
  stop_loss = of_ℕ 95;
  leverage = 5;
  targets_clean = some (of_ℕ 105) ∷ some (of_ℕ 110) ∷ [];
  is_accepted = true;
}

abbrev signals : ℕ → ℕ → Option Signal
signals zero k = none
signals (suc n) k = if k == 4 then some signal else none

abbrev rows : Rows
rows = record { signals = signals; settings = λ u. none; telegram_id = λ u. some 70 }

abbrev bus : Bus
bus events e = ok tt

abbrev start : World
start = record {
  store = record {
    accounts =
        record { user_id = 7; start_balance_usdt = of_ℕ 1000; balance_usdt = of_ℕ 1000 } ∷ [];
    trades = [];
    next_trade_id = 1;
  };
  published = [];
}

start-IsStore : IsStore start.store
start-IsStore = record { keys = tt; single = λ u k. omega arith }

keyed : IsKeyed rows
keyed zero k s e = cc
keyed (suc n) k s e = ground arith

abbrev inputs : List Input
inputs = message (signal_created (natural 4)) ∷ mark_price (codes "ethusdt") (of_ℕ 106) ∷ []

serve-Reach_example : Reach start.store (serve config rows bus inputs start).store
serve-Reach_example = serve-Reach config rows bus keyed inputs start start-IsStore

abbrev after_signal : World
after_signal = serve config rows bus (message (signal_created (natural 4)) ∷ []) start

-- A trade of the user, who has 1000 USDT.
abbrev trade : DemoTrade
trade = record {
  id = 1;
  signal_id = some 4;
  user_id = some 7;
  symbol = codes "ETHUSDT";
  side = long;
  leverage = 5;
  margin_usdt = of_ℕ 10;
  notional_usdt = of_ℕ 50;
  qty = decimal 5 1;
  liq_price = some (of_ℕ 80);
  status = trade_open;
  realized_pnl_usdt = none;
  realized_roi_pct = none;
  touched_tps = [];
  closed_reason = none;
  fields_realism_applied = realism;
  legs =
      record { leg_index = 1; target_price = of_ℕ 105; qty = decimal 5 1; status = leg_open } ∷ [];
}

abbrev with_trade : World
with_trade = record {
  store = record start.store { trades = trade ∷ []; next_trade_id = 2 };
  published = [];
}

-- The signal is there at once.
abbrev known_rows : Rows
known_rows = record rows { signals = λ n. signals 1 }

abbrev after_tick : World
after_tick = (handle_mark_price config known_rows bus (codes "ethusdt") (of_ℕ 79) with_trade).1

liquidates :
    handle_mark_price config known_rows bus (codes "ethusdt") (of_ℕ 79) with_trade
    ≡ (ok (processed 1), after_tick)
unfolding handle_mark_price find_trade tick_all tick_one tick_trade open_trade_of close_and_announce
    account_of announce insert_leg notify_closed plans_from_trade publish_closed sorted_legs
    touched_of trade_object format_demo_close_message notify publish list_open_demo_trades_by_symbol
    mark_demo_legs_filled close_demo_trade closed_trade find_account update_account update_trade
    get_or_create_demo_account evaluate_price_tick crosses_liquidation liquidated text_eq upper elem
    insert sorted_set capped_loss_usdt_on_liquidation lt le add digit_count div dropped_digits eq
    exact_add excess fix mul neg round_half_even sub sum sum_from
liquidates = refl

handle_mark_price-Accounted_example : Accounted with_trade after_tick
handle_mark_price-Accounted_example =
    handle_mark_price-Accounted config known_rows bus (codes "ethusdt") (of_ℕ 79) with_trade
      after_tick (processed 1) liquidates

abbrev closed : DemoTrade
closed = record trade { status = trade_closed }

abbrev with_closed : World
with_closed = record {
  store = record start.store { trades = closed ∷ []; next_trade_id = 2 };
  published = [];
}

one_row : (u k : ℕ) (t : DemoTrade) → count_if (is_open_for u k) (t ∷ []) ≤ 1
one_row u k t = ground arith

serve-Rests_example :
    find_trade 1 (serve config rows bus inputs with_closed).store.trades ≡ some closed
unfolding find_trade
serve-Rests_example =
    serve-Rests config rows bus keyed inputs with_closed 1 closed
      (record { keys = (omega arith, tt, tt); single = λ u k. one_row u k closed }) refl refl

serve-single_example :
    count_if (is_open_for 7 4) (serve config rows bus inputs with_trade).store.trades ≤ 1
serve-single_example =
    serve-single config rows bus keyed inputs with_trade 7 4
      (record { keys = (omega arith, tt, tt); single = λ u k. one_row u k trade })

compute_demo_stats-Recounted_example :
    Recounted 7 with_closed.store.trades
      (compute_demo_stats (get_demo_stats rows 7 with_closed.store))
compute_demo_stats-Recounted_example = compute_demo_stats-Recounted rows 7 with_closed.store
