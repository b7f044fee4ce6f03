-- ===== src/Tests/Lifecycle.antt =====
-- services/core_engine/lifecycle.py on a concrete trade.
use mrrik_ai_bot.Prelude.{◌≡◌, refl, ◌⊎◌, true, false, [], ◌∷◌, none, some, ok}
use mrrik_ai_bot.Prelude.Text.{Text, codes, print, text_eq}
use mrrik_ai_bot.Prelude.Sets.{sorted_set, insert}
use mrrik_ai_bot.Decimal.{of_ℕ, le, lt, eq, add, sub, mul, div, neg, max_of}
use mrrik_ai_bot.Signal.Types.{long}
use mrrik_ai_bot.Signal.Pnl.{pnl_usdt_for_fraction, signed_move_fraction}
use mrrik_ai_bot.Exchange.{World}
use mrrik_ai_bot.Core.Ids.{client_order_id, id_text, purpose_token, is_safe}
use mrrik_ai_bot.Core.Trades.{
  Trade, TradeLeg, leg_open, leg_filled, leg_canceled, trade_open, trade_closed, all_tp, sl,
  close_trade, mark_leg_filled, fill_leg,
}
use mrrik_ai_bot.Core.Lifecycle.{
  FillEvent, closed, blended_pnl, blended_from, close_all_tp, place_break_even, handle_leg_fill,
  handle_stop_fill, cancel_open_tps, roi_from_pnl,
}
use mrrik_ai_bot.Core.Lifecycle.BreakEven.{Replaced, Kept, place_break_even-moved}
use mrrik_ai_bot.Core.Lifecycle.Closing.{
  EndedByLegs, blended_pnl-capped, handle_leg_fill-EndedByLegs,
}
use mrrik_ai_bot.Core.Lifecycle.Stopped.{EndedByStop, handle_stop_fill-EndedByStop}
use mrrik_ai_bot.Tests.Simulated.{simulated, start}

abbrev leg : TradeLeg
leg = record {
  leg_index = 1;
  target_price = of_ℕ 105;
  qty = of_ℕ 10;
  status = leg_open;
  tp_order_id = some (codes "m7-7-tp-1");
}

abbrev trade : Trade
trade = record {
  id = 7;
  signal_id = some 4;
  user_id = some 3;
  symbol = "BTCUSDT";
  side = long;
  leverage = 5;
  margin_usdt = of_ℕ 200;
  notional_usdt = of_ℕ 1000;
  qty = of_ℕ 10;
  liq_price = some (of_ℕ 81);
  entry = of_ℕ 100;
  stop_loss = of_ℕ 95;
  status = trade_open;
  legs = leg ∷ [];
  touched_tps = [];
  entry_order_id = none;
  sl_order_id = some (codes "m7-7-sl");
  closed_reason = none;
  realized_pnl_usdt = none;
  realized_roi_pct = none;
}

abbrev event : FillEvent
event = record {
  client_order_id = codes "m7-7-sl";
  last_filled_price = none;
  realized_pnl = some (of_ℕ 50);
}

abbrev won : Trade
won = record trade {
  status = trade_closed;
  legs = record leg { status = leg_filled } ∷ [];
  touched_tps = 1 ∷ [];
  closed_reason = some all_tp;
  realized_pnl_usdt = some (of_ℕ 50);
  realized_roi_pct = some (mul (div (of_ℕ 50) (of_ℕ 200)) (of_ℕ 100));
}

abbrev after_win : World (simulated false)
after_win = (handle_leg_fill (simulated false) event true trade leg (start false)).1

wins :
    handle_leg_fill (simulated false) event true trade leg (start false)
    ≡ (ok (closed, won), after_win)
unfolding handle_leg_fill mark_leg_filled fill_leg sorted_set insert close_all_tp close_trade
    roi_from_pnl eq
wins = refl

handle_leg_fill-EndedByLegs_example : EndedByLegs won
handle_leg_fill-EndedByLegs_example =
    handle_leg_fill-EndedByLegs (simulated false) event true trade won leg (start false) after_win
      wins

abbrev lost : Trade
lost = record trade {
  status = trade_closed;
  legs = record leg { status = leg_canceled } ∷ [];
  closed_reason = some sl;
  realized_pnl_usdt = some (of_ℕ 50);
  realized_roi_pct = some (mul (div (of_ℕ 50) (of_ℕ 200)) (of_ℕ 100));
}

abbrev after_loss : World (simulated false)
after_loss = (handle_stop_fill (simulated false) event trade (start false)).1

loses :
    handle_stop_fill (simulated false) event trade (start false) ≡ (ok (closed, lost), after_loss)
unfolding handle_stop_fill cancel_open_tps close_trade sorted_set client_order_id id_text
    purpose_token print is_safe text_eq eq le lt roi_from_pnl
loses = refl

handle_stop_fill-EndedByStop_example : EndedByStop event trade lost
handle_stop_fill-EndedByStop_example =
    handle_stop_fill-EndedByStop (simulated false) event trade lost (start false) after_loss loses

abbrev be_id : Text
be_id = codes "m7-7-be_sl"

place_break_even-moved_example :
    let moved = place_break_even (simulated false) trade (of_ℕ 5) be_id (start false) in
    Replaced (simulated false) trade be_id (start false) moved
    ⊎ Kept (simulated false) trade (start false) moved
place_break_even-moved_example =
    place_break_even-moved (simulated false) trade (of_ℕ 5) be_id (start false)

-- The price of 70 would lose more than the margin.
capped : blended_pnl trade none (some (of_ℕ 70)) ≡ ok (neg (of_ℕ 200))
unfolding blended_pnl blended_from pnl_usdt_for_fraction signed_move_fraction le lt add sub mul div
    neg max_of
capped = refl

blended_pnl-capped_example : le (neg (of_ℕ 200)) (neg (of_ℕ 200)) ≡ true
blended_pnl-capped_example = blended_pnl-capped trade none (some (of_ℕ 70)) (neg (of_ℕ 200)) capped
