-- ===== src/Tests/Simulated.antt =====
-- A small exchange for the tests: a clock in milliseconds, and the algo orders it lists. It refuses
-- or loses nothing, fills market entries at once, except that a silent one lists no stop loss.
use mrrik_ai_bot.Prelude.{
  ℕ, ◌+◌, ◌≤◌, arith, Bool, true, false, List, [], ◌∷◌, none, Result, ok, if◌then◌else◌,
}
use mrrik_ai_bot.Decimal.{of_ℕ, decimal}
use mrrik_ai_bot.Signal.Sizing.{SymbolFilters}
use mrrik_ai_bot.Exchange.{
  Exchange, World, ExchangeOrder, new, filled, Call, Reply, verify_credentials,
  verify_withdrawals_disabled, get_usdt_balance, get_symbol_filters, OrderRequest, set_leverage,
  set_margin_type_isolated, place_entry_limit, place_entry_market, place_stop_market,
  place_take_profit_market, close_position_market, cancel_order, cancel_algo_order,
  cancel_open_orders, cancel_all_algo_orders, get_position, get_open_orders, get_open_algo_orders,
}
use mrrik_ai_bot.Core.Entry.Waiting.{IsClock}

abbrev filters : SymbolFilters
filters = record {
  tick_size = decimal 1 2;
  step_size = decimal 1 3;
  min_qty = decimal 1 3;
  min_notional = of_ℕ 5;
}

pub record Simulated : Type 0 where
  pub time : ℕ
  pub listed : List ExchangeOrder

abbrev order_of : OrderRequest → ExchangeOrder
order_of r = record { client_order_id = r.client_order_id; status = new }

abbrev pub simulate : Bool → (c : Call) → Simulated → Result (Reply c) × Simulated
simulate silent verify_credentials s = (ok true, s)
simulate silent verify_withdrawals_disabled s = (ok true, s)
simulate silent get_usdt_balance s = (ok (of_ℕ 1000), s)
simulate silent (get_symbol_filters symbol) s = (ok filters, s)
simulate silent (set_leverage symbol n) s = (ok tt, s)
simulate silent (set_margin_type_isolated symbol) s = (ok tt, s)
simulate silent (place_entry_limit r q p) s = (ok (order_of r), s)
simulate silent (place_entry_market r q) s =
    (ok (record { client_order_id = r.client_order_id; status = filled }), s)
simulate silent (place_stop_market r q p) s =
    (ok (order_of r), if silent then s else record s { listed = order_of r ∷ s.listed })
simulate silent (place_take_profit_market r q p) s =
    (ok (order_of r), record s { listed = order_of r ∷ s.listed })
simulate silent (close_position_market r q) s = (ok (order_of r), s)
simulate silent (cancel_order symbol id) s = (ok tt, s)
simulate silent (cancel_algo_order id) s = (ok tt, s)
simulate silent (cancel_open_orders symbol) s = (ok tt, s)
simulate silent (cancel_all_algo_orders symbol) s = (ok tt, record s { listed = [] })
simulate silent (get_position symbol side) s = (ok none, s)
simulate silent (get_open_orders symbol) s = (ok [], s)
simulate silent (get_open_algo_orders symbol) s = (ok s.listed, s)

abbrev pub simulated : Bool → Exchange
simulated silent = record {
  State = Simulated;
  perform = simulate silent;
  pause = λ ms s. record s { time = s.time + ms };
  now = λ s. s.time;
  latest_mark = λ s. none;
}

abbrev pub start : (silent : Bool) → World (simulated silent)
start silent = record { state = record { time = 0; listed = [] }; calls = [] }

-- No call takes time, and a pause takes what it is told.
call_later : (c : Call) (s : Simulated) → s.time ≤ (simulate false c s).1.time
call_later verify_credentials s = omega arith
call_later verify_withdrawals_disabled s = omega arith
call_later get_usdt_balance s = omega arith
call_later (get_symbol_filters symbol) s = omega arith
call_later (set_leverage symbol n) s = omega arith
call_later (set_margin_type_isolated symbol) s = omega arith
call_later (place_entry_limit r q p) s = omega arith
call_later (place_entry_market r q) s = omega arith
call_later (place_stop_market r q p) s = omega arith
call_later (place_take_profit_market r q p) s = omega arith
call_later (close_position_market r q) s = omega arith
call_later (cancel_order symbol id) s = omega arith
call_later (cancel_algo_order id) s = omega arith
call_later (cancel_open_orders symbol) s = omega arith
call_later (cancel_all_algo_orders symbol) s = omega arith
call_later (get_position symbol side) s = omega arith
call_later (get_open_orders symbol) s = omega arith
call_later (get_open_algo_orders symbol) s = omega arith

pub simulated-IsClock : IsClock (simulated false)
simulated-IsClock = record { call_later = call_later; pause_later = λ ms s. omega arith }
