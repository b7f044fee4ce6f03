-- ===== src/Tests/Reconciliation.antt =====
-- services/core_engine/reconciliation.py on a trade whose stop loss the exchange has lost.
use mrrik_ai_bot.Prelude.{◌≡◌, refl, false, [], ◌∷◌, none, some, Result, ok}
use mrrik_ai_bot.Prelude.Text.{Text, codes, print, print_from, text_eq}
use mrrik_ai_bot.Decimal.{of_ℕ, lt, sub, sum}
use mrrik_ai_bot.Signal.Types.{long}
use mrrik_ai_bot.Exchange.{Exchange, World, Call, Reply, new, call, get_position}
use mrrik_ai_bot.Core.Ids.{client_order_id, id_text, purpose_token, is_safe}
use mrrik_ai_bot.Core.Trades.{Trade, TradeLeg, leg_open, trade_open}
use mrrik_ai_bot.Core.Repository.{set_leg_tp_order}
use mrrik_ai_bot.Core.Reconciliation.{
  Bench, examined, were_missing, ReconcileResult, stop_id, leg_id, place_stop, repair_stop,
  place_leg, repair_leg, repair_legs, reconcile_trade, reconcile_from, reconcile_open_trades,
}
use mrrik_ai_bot.Core.Reconciliation.Protected.{Protected, reconcile_trade-Protected}
use mrrik_ai_bot.Core.Reconciliation.Passes.{Repaired, reconcile_open_trades-Repaired}
use mrrik_ai_bot.Core.Reconciliation.Checked.{Checked, reconcile_open_trades-Checked}
use mrrik_ai_bot.Tests.Simulated.{Simulated, simulated, simulate, start}

-- The small exchange with a position.
abbrev hold : (c : Call) → Simulated → Result (Reply c) × Simulated
hold (get_position symbol side) s = (ok (some (record { qty = of_ℕ 10; mark_price = none })), s)
hold c s = simulate false c s

abbrev holding : Exchange
holding = record (simulated false) { perform = hold }

abbrev tp_id : Text
tp_id = codes "m7-7-tp-1"

abbrev leg : TradeLeg
leg = record {
  leg_index = 1;
  target_price = of_ℕ 105;
  qty = of_ℕ 10;
  status = leg_open;
  tp_order_id = some tp_id;
}

abbrev trade : Trade
trade = record {
  id = 7;
  signal_id = some 4;
  user_id = some 3;
  symbol = "BTCUSDT";
  side = long;
  leverage = 5;
  margin_usdt = of_ℕ 200;
  notional_usdt = of_ℕ 1000;
  qty = of_ℕ 10;
  liq_price = some (of_ℕ 81);
  entry = of_ℕ 100;
  stop_loss = of_ℕ 95;
  status = trade_open;
  legs = leg ∷ [];
  touched_tps = [];
  entry_order_id = none;
  sl_order_id = none;
  closed_reason = none;
  realized_pnl_usdt = none;
  realized_roi_pct = none;
}

-- The take-profit is listed, the stop loss is not.
abbrev bare : World holding
bare = record {
  state = record { time = 0; listed = record { client_order_id = tp_id; status = new } ∷ [] };
  calls = [];
}

abbrev bench : Bench holding
bench = record { world = bare; trade = trade; repaired = 0 }

abbrev repaired : Bench holding
repaired = (reconcile_trade holding trade bench).1

repairs : reconcile_trade holding trade bench ≡ (ok examined, repaired)
unfolding reconcile_trade repair_stop place_stop repair_legs repair_leg place_leg stop_id leg_id
    call client_order_id id_text purpose_token print print_from is_safe text_eq lt set_leg_tp_order
    sub sum
repairs = refl

-- One order was placed, the stop loss.
places_stop : repaired.repaired ≡ 1
unfolding reconcile_trade repair_stop place_stop repair_legs repair_leg place_leg stop_id leg_id
    call client_order_id id_text purpose_token print print_from is_safe text_eq lt set_leg_tp_order
    sub sum
places_stop = refl

reconcile_trade-Protected_example : Protected holding trade bare repaired.world
reconcile_trade-Protected_example = reconcile_trade-Protected holding trade bench repaired repairs

abbrev always : Trade → Result (Unit {0})
always t = ok tt

reconcile_open_trades-Repaired_example :
    Repaired holding
      (λ u. bare)
      (reconcile_open_trades holding always (trade ∷ []) λ u. bare).1.accounts
reconcile_open_trades-Repaired_example =
    reconcile_open_trades-Repaired holding always (trade ∷ []) λ u. bare

-- Without a position and orders the trade is closed, and counted.
abbrev gone : ReconcileResult
gone = record {
  checked_trades = 1;
  closed_missing_positions = 1;
  repaired_orders = 0;
  errors = were_missing 7 ∷ [];
}

closes_missing :
    (reconcile_open_trades (simulated false) always (trade ∷ []) λ u. start false).1.result ≡ gone
unfolding reconcile_open_trades reconcile_from reconcile_trade call
closes_missing = refl

reconcile_open_trades-Checked_example :
    Checked
      (simulated false)
      always
      (trade ∷ [])
      (λ u. start false)
      (reconcile_open_trades (simulated false) always (trade ∷ []) λ u. start false)
reconcile_open_trades-Checked_example =
    reconcile_open_trades-Checked (simulated false) always (trade ∷ []) λ u. start false
