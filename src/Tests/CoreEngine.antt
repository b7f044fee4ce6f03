-- ===== src/Tests/CoreEngine.antt =====
-- services/core_engine/engine.py on the small exchange, for two users: one trades, one is blocked.
use mrrik_ai_bot.Prelude.{
  ◌≡◌, refl, true, false, List, [], ◌∷◌, none, some, Result, ok, err, length,
}
use mrrik_ai_bot.Prelude.Text.{codes}
use mrrik_ai_bot.Decimal.{of_ℕ, decimal}
use mrrik_ai_bot.Signal.Types.{long}
use mrrik_ai_bot.Exchange.{Exchange}
use mrrik_ai_bot.Core.Entry.{market}
use mrrik_ai_bot.Core.Repository.{Signal}
use mrrik_ai_bot.Core.Engine.{CoreEngineConfig, User, Rows, Event, skip_notice, Desk}
use mrrik_ai_bot.Core.Engine.Signals.{
  Tally, HandleSignalResult, ignored, duplicate_event, processed, natural,
}
use mrrik_ai_bot.Core.Engine.Untouched.{Untouched, Cleared, handle_user-Guarded}
use mrrik_ai_bot.Core.Engine.Settled.Handled.{
  Handled, handle_signal_created-Handled, handle_signal_created-again,
}
use mrrik_ai_bot.Prelude.{◌⊎◌}
use mrrik_ai_bot.Tests.Simulated.{simulated, start}
use mrrik_ai_bot.Core.Engine.{
  kill_switch_enabled, effective_leverage, precheck_reason, publish, publish_safely,
  publish_admin_alerts, publish_skip,
}
use mrrik_ai_bot.Core.Engine.Preparation.{
  check_plan, check_margin, check_withdrawals, check_keys, prepare,
}
use mrrik_ai_bot.Core.Engine.Users.{
  close_after_protection_failure, record_tp_orders, finish_opened, finish_skipped,
  finish_emergency_closed, finish_close_failed, finish_error, execute, recover, open_trade,
  trade_for, handle_user,
}
use mrrik_ai_bot.Core.Engine.Signals.{
  positive_int, get_signal_with_retry, handle_users, handle_signal_created,
}
use mrrik_ai_bot.Core.Repository.{
  mark_event_processed, count_open_trades, has_open_trade_for_signal, pending_trade,
  create_trade_from_plan, update_trade, status_of, mark_trade_opened, mark_trade_status,
  set_leg_tp_order,
}
use mrrik_ai_bot.Core.Entry.{
  deviates, matching_filled, next_round, poll_entry, wait_loop, wait_for_entry_fill, place_entry,
  after_entry, place_initial_orders,
}
use mrrik_ai_bot.Core.Orders.{
  attempt, place_with_retry, look_up, confirm_open_order, cleanup, close_or_again,
  emergency_close_loop, emergency_close, place_leg, place_legs, after_confirm, protect,
  place_protective_orders,
}
use mrrik_ai_bot.Core.Ids.{purpose_token, is_safe, id_text, client_order_id}
use mrrik_ai_bot.Core.Risk.{round_qty_down, round_price_conservative}
use mrrik_ai_bot.Core.Risk.Plan.{
  validate_inputs, round_quantities, ladder_legs, model3_exit, plan_exits, finish_plan,
  build_execution_plan,
}
use mrrik_ai_bot.Core.Risk.Merging.{settle, is_valid_leg, merge_next, merge_loop, merge_tiny_legs}
use mrrik_ai_bot.Core.Trades.{fill_leg, mark_leg_filled, close_trade}
use mrrik_ai_bot.Exchange.{to_binance_order_side, to_binance_position_side, call, sleep}
use mrrik_ai_bot.Decimal.{
  excess, round_half_even, dropped_digits, fix, exact_add, add, neg, sub, mul, digit_count, div,
  floor, ceiling, le, lt, eq, abs, sum_from, sum, max_of, min_of,
}
use mrrik_ai_bot.Signal.Pnl.{
  signed_move_fraction, roi_percent_on_margin, pnl_usdt_for_fraction, approximate_liquidation_price,
  liquidation_happens_before_stop, capped_loss_usdt_on_liquidation,
}
use mrrik_ai_bot.Signal.Sizing.{
  floor_to_step, round_price_to_tick, equal_fractions, model2_fractions, validate_sizing_inputs,
  validate_fractions, leg_quantities, is_too_small, merge_leg, size_leg, size_legs, size_position,
}
use mrrik_ai_bot.Prelude.Text.{upper, lower, text_eq, print_from, print}
use mrrik_ai_bot.Prelude.Sets.{elem, insert, sorted_set}

abbrev exchange : Exchange
exchange = simulated false

abbrev config : CoreEngineConfig
config = record {
  fixed_margin_usdt = of_ℕ 10;
  risk_model = 1;
  model2_weights = [];
  model3_exit_roi_pct = of_ℕ 50;
  max_concurrent = 3;
  entry_mode = market;
  entry_guard = record { entry_fill_timeout_sec = 1; entry_max_deviation_pct = of_ℕ 1 };
  maintenance_margin_rate = decimal 5 3;
  leverage_cap = none;
  signal_lookup_retry_delays = 50 ∷ [];
  admin_telegram_ids = 9 ∷ [];
}

abbrev signal : Signal
signal = record {
  id = 4;
  symbol = "ETHUSDT";
  side = some long;
  entry = of_ℕ 100;
  stop_loss = of_ℕ 95;
  leverage = 5;
  targets_clean = some (of_ℕ 105) ∷ some (of_ℕ 110) ∷ [];
  is_accepted = true;
}

abbrev rows : Rows
rows = record {
  signals = λ n k. some signal;
  eligible_users =
      record { id = 1; is_blocked = false } ∷ record { id = 2; is_blocked = true } ∷ [];
  has_subscription = λ u. true;
  settings = λ u. none;
  credentials =
      λ u. some (record { is_valid = true; scope_verified = true; is_decryptable = true });
  global_kill_switch = some (codes "off");
  user_kill_switch = λ u. none;
  exchange_is_created = λ u. true;
  is_plan_failure = λ e. false;
}

abbrev bus : List Event → Event → Result (Unit {0})
bus events e = ok tt

abbrev desk : Desk exchange
desk = record {
  tables = record { trades = []; next_trade_id = 1; processed_events = [] };
  accounts = λ u. start false;
  published = [];
}

abbrev run : Result HandleSignalResult × Desk exchange
run = handle_signal_created exchange config rows bus (codes "e1") (natural 4) desk

abbrev after : Desk exchange
after = run.1

abbrev tally : Tally
tally = record { opened_count = 1; skipped_count = 1; error_count = 0 }

opens_one :
    handle_signal_created exchange config rows bus (codes "e1") (natural 4) desk
    ≡ (ok (processed tally), after)
unfolding kill_switch_enabled effective_leverage precheck_reason publish publish_safely
    publish_admin_alerts publish_skip check_plan check_margin check_withdrawals check_keys prepare
    close_after_protection_failure record_tp_orders finish_opened finish_skipped
    finish_emergency_closed finish_close_failed finish_error execute recover open_trade trade_for
    handle_user positive_int get_signal_with_retry handle_users handle_signal_created
    mark_event_processed count_open_trades has_open_trade_for_signal pending_trade
    create_trade_from_plan update_trade status_of mark_trade_opened mark_trade_status
    set_leg_tp_order deviates matching_filled next_round poll_entry wait_loop wait_for_entry_fill
    place_entry after_entry place_initial_orders attempt place_with_retry look_up confirm_open_order
    cleanup close_or_again emergency_close_loop emergency_close place_leg place_legs after_confirm
    protect place_protective_orders purpose_token is_safe id_text client_order_id round_qty_down
    round_price_conservative validate_inputs round_quantities ladder_legs model3_exit plan_exits
    finish_plan build_execution_plan settle is_valid_leg merge_next merge_loop merge_tiny_legs
    fill_leg mark_leg_filled close_trade to_binance_order_side to_binance_position_side call sleep
    excess round_half_even dropped_digits fix exact_add add neg sub mul digit_count div floor
    ceiling le lt eq abs sum_from sum max_of min_of signed_move_fraction roi_percent_on_margin
    pnl_usdt_for_fraction approximate_liquidation_price liquidation_happens_before_stop
    capped_loss_usdt_on_liquidation floor_to_step round_price_to_tick equal_fractions
    model2_fractions validate_sizing_inputs validate_fractions leg_quantities is_too_small merge_leg
    size_leg size_legs size_position upper lower text_eq print_from print elem insert sorted_set
opens_one = refl

handle_signal_created-Handled_example :
    Handled exchange config rows bus (processed tally) desk after
handle_signal_created-Handled_example =
    handle_signal_created-Handled exchange config rows bus (codes "e1") (natural 4)
      (processed tally) desk after tt opens_one

handle_signal_created-again_example :
    handle_signal_created exchange config rows bus (codes "e1") (natural 4) after
    ≡ (ok (ignored duplicate_event), after)
handle_signal_created-again_example =
    handle_signal_created-again exchange config rows bus (codes "e1") (natural 4) tally desk after
      tt opens_one

abbrev blocked : User
blocked = record { id = 2; is_blocked = true }

abbrev after_blocked : Desk exchange
after_blocked = (handle_user exchange config rows bus 4 signal blocked desk).1

handle_user-Guarded_example : Untouched desk after_blocked ⊎ Cleared config rows blocked 4 desk
handle_user-Guarded_example = handle_user-Guarded exchange config rows bus 4 signal blocked desk

-- The bus fails for the notice to the second user: the exception leaves the handler, and the session
-- takes the tables back, although the orders of the first user stand on the exchange.
abbrev failing_bus : List Event → Event → Result (Unit {0})
failing_bus events (skip_notice u reason) = err "redis is gone"
failing_bus events e = ok tt

abbrev lost : Result HandleSignalResult × Desk exchange
lost = handle_signal_created exchange config rows failing_bus (codes "e1") (natural 4) desk

orders_without_a_record :
    (lost.0 ≡ err "redis is gone")
    × (length (lost.1.accounts 1).calls ≡ length (after.accounts 1).calls)
unfolding kill_switch_enabled effective_leverage precheck_reason publish publish_safely
    publish_admin_alerts publish_skip check_plan check_margin check_withdrawals check_keys prepare
    close_after_protection_failure record_tp_orders finish_opened finish_skipped
    finish_emergency_closed finish_close_failed finish_error execute recover open_trade trade_for
    handle_user positive_int get_signal_with_retry handle_users handle_signal_created
    mark_event_processed count_open_trades has_open_trade_for_signal pending_trade
    create_trade_from_plan update_trade status_of mark_trade_opened mark_trade_status
    set_leg_tp_order deviates matching_filled next_round poll_entry wait_loop wait_for_entry_fill
    place_entry after_entry place_initial_orders attempt place_with_retry look_up confirm_open_order
    cleanup close_or_again emergency_close_loop emergency_close place_leg place_legs after_confirm
    protect place_protective_orders purpose_token is_safe id_text client_order_id round_qty_down
    round_price_conservative validate_inputs round_quantities ladder_legs model3_exit plan_exits
    finish_plan build_execution_plan settle is_valid_leg merge_next merge_loop merge_tiny_legs
    fill_leg mark_leg_filled close_trade to_binance_order_side to_binance_position_side call sleep
    excess round_half_even dropped_digits fix exact_add add neg sub mul digit_count div floor
    ceiling le lt eq abs sum_from sum max_of min_of signed_move_fraction roi_percent_on_margin
    pnl_usdt_for_fraction approximate_liquidation_price liquidation_happens_before_stop
    capped_loss_usdt_on_liquidation floor_to_step round_price_to_tick equal_fractions
    model2_fractions validate_sizing_inputs validate_fractions leg_quantities is_too_small merge_leg
    size_leg size_legs size_position upper lower text_eq print_from print elem insert sorted_set
orders_without_a_record = (refl, refl)
