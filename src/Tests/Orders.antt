-- ===== src/Tests/Orders.antt =====
-- services/core_engine/orders.py and ids.py on concrete trades.
use mrrik_ai_bot.Prelude.{
  ℕ, ◌≡◌, ◌≤◌, ◌+◌, refl, true, false, [], ◌∷◌, Option, none, some, ok, arith, length, all,
}
use mrrik_ai_bot.Prelude.Text.{Text, print, text_eq, codes}
use mrrik_ai_bot.Decimal.{of_ℕ}
use mrrik_ai_bot.Signal.Types.{long}
use mrrik_ai_bot.Exchange.{World, call, sleep}
use mrrik_ai_bot.Exchange.Trace.{Adds}
use mrrik_ai_bot.Core.Ids.{Purpose, purpose_token, id_text, is_safe, client_order_id, max_id_length}
use mrrik_ai_bot.Core.Ids.Injective.{client_order_id-injective}
use mrrik_ai_bot.Core.Ids.Bounds.{client_order_id-total}
use mrrik_ai_bot.Core.Orders.{
  TradeRef, OrderPlan, OpenTradeResult, opened, emergency_closed, emergency_result,
  place_protective_orders, confirm_open_order, retry_delays, protect, after_confirm, look_up,
  attempt, place_legs, place_leg, emergency_close, emergency_close_loop, close_or_again,
  place_with_retry,
}
use mrrik_ai_bot.Core.Orders.Total.{HasIds, Settles, place_protective_orders-Settles}
use mrrik_ai_bot.Core.Orders.Protective.{Listed, confirm_open_order-Listed}
use mrrik_ai_bot.Core.Orders.Ordered.{
  OpenedAfter, Other, place_protective_orders-opened, place_protective_orders-unopened,
}
use mrrik_ai_bot.Core.Entry.{rounds, wait_loop}
use mrrik_ai_bot.Core.Entry.Waiting.{wait_loop-fuel}
use mrrik_ai_bot.Tests.Simulated.{simulated, simulated-IsClock, start}

abbrev trade : TradeRef
trade = record { id = 7; symbol = "BTCUSDT"; side = long }

abbrev plan : OrderPlan
plan = record {
  leverage = 5;
  qty = of_ℕ 10;
  entry_price = of_ℕ 100;
  stop_loss = of_ℕ 95;
  legs = record { leg_index = 1; target_price = of_ℕ 105; qty = of_ℕ 10 } ∷ [];
}

abbrev protected : OpenTradeResult
protected = record {
  status = opened;
  reason = none;
  entry_order_id = none;
  sl_order_id = some (codes "m7-7-sl");
  tp_order_ids = codes "m7-7-tp-1" ∷ [];
}

abbrev opened_world : World (simulated false)
opened_world = (place_protective_orders (simulated false) trade plan long (start false)).1

protects :
    place_protective_orders (simulated false) trade plan long (start false)
    ≡ (ok protected, opened_world)
unfolding place_protective_orders client_order_id id_text print purpose_token is_safe protect
    after_confirm confirm_open_order look_up call place_with_retry attempt text_eq place_legs
    place_leg sleep emergency_close emergency_close_loop close_or_again
protects = refl

place_protective_orders-opened_example :
    OpenedAfter (simulated false) trade (start false) protected opened_world
place_protective_orders-opened_example =
    place_protective_orders-opened (simulated false) trade plan long (start false) opened_world
      protected protects refl

abbrev closed_world : World (simulated true)
closed_world = (place_protective_orders (simulated true) trade plan long (start true)).1

abbrev closed_result : OpenTradeResult
closed_result = emergency_result emergency_closed "stop_loss_unconfirmed_emergency_close"

gives_up :
    place_protective_orders (simulated true) trade plan long (start true)
    ≡ (ok closed_result, closed_world)
unfolding place_protective_orders client_order_id id_text print purpose_token is_safe protect
    after_confirm confirm_open_order look_up call place_with_retry attempt text_eq place_legs
    place_leg sleep emergency_close emergency_close_loop close_or_again
gives_up = refl

place_protective_orders-unopened_example : Adds (simulated true) Other (start true) closed_world
place_protective_orders-unopened_example =
    place_protective_orders-unopened (simulated true) trade plan long (start true) closed_world
      closed_result gives_up (λ e. cc)

confirms :
    (confirm_open_order (simulated false) "BTCUSDT" (codes "m7-7-sl") retry_delays opened_world).0
    ≡ true
unfolding place_protective_orders client_order_id id_text print purpose_token is_safe protect
    after_confirm confirm_open_order look_up call place_with_retry attempt text_eq place_legs
    place_leg sleep emergency_close emergency_close_loop close_or_again
confirms = refl

confirm_open_order-Listed_example :
    Listed
      (simulated false)
      "BTCUSDT"
      (codes "m7-7-sl")
      (confirm_open_order (simulated false) "BTCUSDT" (codes "m7-7-sl") retry_delays opened_world).1
confirm_open_order-Listed_example =
    confirm_open_order-Listed (simulated false) "BTCUSDT" (codes "m7-7-sl") retry_delays
      opened_world confirms

wait_loop-fuel_example :
    wait_loop
      (simulated false)
      (3 + rounds 2)
      2000
      trade
      plan
      (codes "m7-7-entry")
      (of_ℕ 1)
      long
      (start false)
    ≡ wait_loop
        (simulated false)
        (rounds 2)
        2000
        trade
        plan
        (codes "m7-7-entry")
        (of_ℕ 1)
        long
        (start false)
wait_loop-fuel_example =
    wait_loop-fuel (simulated false) simulated-IsClock 3 2 trade plan (codes "m7-7-entry") (of_ℕ 1)
      long (start false)

made : client_order_id 7 Purpose.tp (some 3) ≡ ok (codes "m7-7-tp-3")
unfolding client_order_id id_text print purpose_token is_safe
made = refl

client_order_id-injective_example :
    (◌≡◌ {A = ℕ} 7 7) × (Purpose.tp ≡ Purpose.tp) × (◌≡◌ {A = Option ℕ} (some 3) (some 3))
client_order_id-injective_example =
    client_order_id-injective 7 7 Purpose.tp Purpose.tp (some 3) (some 3) (codes "m7-7-tp-3") made
      made

client_order_id-total_example :
    (id : Text) × (client_order_id 7 Purpose.tp (some 3) ≡ ok id)
    × (length id ≤ max_id_length)
    × (all is_safe id ≡ true)
client_order_id-total_example =
    client_order_id-total 7 Purpose.tp (some 3) (omega arith) (omega arith)
      (omega arith, omega arith) refl

plan-HasIds : HasIds trade plan
plan-HasIds = record {
  positive = omega arith;
  small = omega arith;
  legs = ((omega arith, omega arith), tt);
}

place_protective_orders-Settles_example :
    Settles (place_protective_orders (simulated true) trade plan long (start true))
place_protective_orders-Settles_example =
    place_protective_orders-Settles (simulated true) trade plan plan-HasIds long (start true)
