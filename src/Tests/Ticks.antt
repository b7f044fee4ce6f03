-- ===== src/Tests/Ticks.antt =====
-- services/demo_engine/trade_logic.py on concrete ticks.
use mrrik_ai_bot.Prelude.{◌≡◌, refl, true, [], ◌∷◌, some, ok}
use mrrik_ai_bot.Decimal.{of_ℕ, decimal, lt, le, eq, add, sub, mul, div}
use mrrik_ai_bot.Signal.Types.{long}
use mrrik_ai_bot.Demo.TradeLogic.Total.{IsValid, Returned, evaluate_price_tick-Returned}
use mrrik_ai_bot.Demo.TradeLogic.{
  OpenTrade, DemoCloseDecision, be, evaluate_price_tick, evaluate_ladder, evaluate_targets,
  newly_filled, blended_from, closed_decision, current_stop_loss, crosses_liquidation,
  crosses_stop_loss, crosses_take_profit,
}
use mrrik_ai_bot.Prelude.Sets.{elem, sorted_set, insert}
use mrrik_ai_bot.Signal.Pnl.{pnl_usdt_for_fraction, signed_move_fraction}
use mrrik_ai_bot.Demo.TradeLogic.Ticks.{TickOutcome, evaluate_price_tick-TickOutcome}

-- The first target is touched already, so that the stop stands at the entry.
abbrev trade : OpenTrade
trade = record {
  side = long;
  entry = of_ℕ 100;
  original_stop_loss = of_ℕ 95;
  leverage = 5;
  margin_usdt = of_ℕ 10;
  liq_price = of_ℕ 81;
  risk_model = 1;
  model3_exit_roi_pct = of_ℕ 50;
  move_sl_to_be_after_tp1 = true;
  open_legs =
      record { leg_index = 1; target_price = of_ℕ 105; fraction = decimal 5 1; qty = decimal 5 1 }
      ∷ record { leg_index = 2; target_price = of_ℕ 110; fraction = decimal 5 1; qty = decimal 5 1 }
      ∷ [];
  touched_tps = 1 ∷ [];
  maintenance_margin_rate = decimal 5 3;
}

abbrev decision : DemoCloseDecision
decision = record {
  closure = some (record {
    closed_reason = be;
    exit_price = of_ℕ 100;
    realized_roi_pct = decimal 1250000000000000000000000000 26;
    realized_pnl_usdt = decimal 1250000000000000000000000000 27;
  });
  touched_tps = 1 ∷ [];
  filled_leg_indices = [];
}

breaks_even : evaluate_price_tick trade (of_ℕ 99) ≡ ok decision
unfolding evaluate_price_tick evaluate_ladder evaluate_targets newly_filled blended_from
    closed_decision current_stop_loss crosses_liquidation crosses_stop_loss crosses_take_profit elem
    sorted_set insert pnl_usdt_for_fraction signed_move_fraction lt le eq add sub mul div
breaks_even = refl

evaluate_price_tick-TickOutcome_example : TickOutcome trade (of_ℕ 99) decision
evaluate_price_tick-TickOutcome_example =
    evaluate_price_tick-TickOutcome trade (of_ℕ 99) decision breaks_even

valid : IsValid trade
unfolding le lt
valid = record {
  entry_positive = refl;
  leverage_positive = refl;
  margin_positive = refl;
  rate_not_negative = refl;
  model = refl;
  roi_positive = refl;
  shares = (refl, (refl, tt));
}

evaluate_price_tick-Returned_example : Returned (evaluate_price_tick trade (of_ℕ 120))
evaluate_price_tick-Returned_example = evaluate_price_tick-Returned trade valid (of_ℕ 120)
