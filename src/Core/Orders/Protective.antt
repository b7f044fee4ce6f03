-- ===== src/Core/Orders/Protective.antt =====
-- services/core_engine/orders.py: no take-profit order without a stop loss that the exchange lists.
use mrrik_ai_bot.Prelude.{
  ℕ, ◌≡◌, refl, ap, Bool, true, false, String, List, [], ◌∷◌, none, Result, ok, err,
}
use mrrik_ai_bot.Prelude.Text.{Text}
use mrrik_ai_bot.Decimal.{Decimal}
use mrrik_ai_bot.Exchange.{
  Exchange, World, Call, ExchangeOrder, OrderRequest, place_stop_market, place_take_profit_market,
  close_position_market, cancel_open_orders, cancel_all_algo_orders, get_open_algo_orders, call,
  sleep, is_listed,
}
use mrrik_ai_bot.Exchange.Trace.{Adds, Adds-trans, call-Adds, sleep-Adds}
use mrrik_ai_bot.Core.Orders.{
  attempt, or_again, look_up, place_with_retry, found, confirm_open_order,
}

-- Looking at the open orders, and placing a stop.
pub data Protecting : Call → Type 0 where
  stop : (r : OrderRequest) (q p : Decimal) → Protecting (place_stop_market r q p)
  look : (symbol : String) → Protecting (get_open_algo_orders symbol)

pub data TakeProfit : Call → Type 0 where
  take_profit : (r : OrderRequest) (q p : Decimal) → TakeProfit (place_take_profit_market r q p)

-- Closing at the market, and canceling what is open.
pub data Closing : Call → Type 0 where
  close : (r : OrderRequest) → Closing (close_position_market r none)
  cancel_open : (symbol : String) → Closing (cancel_open_orders symbol)
  cancel_algo : (symbol : String) → Closing (cancel_all_algo_orders symbol)

module _ (E : Exchange) where
  pub attempt-Adds :
      (P : Call → Type 0) (c : Call) (w : World E) → P c → Adds E P w (attempt E c w).1
  unfolding attempt
  attempt-Adds P c w p = call-Adds E P c w p

  or_again-Adds :
      (P : Call → Type 0) (again : World E → Bool × World E) (w : World E) (o : Bool × World E)
      → Adds E P w o.1
      → ((v : World E) → Adds E P w v → Adds E P w (again v).1)
      → Adds E P w (or_again E again o).1
  or_again-Adds P again w (true, v) h k = h
  or_again-Adds P again w (false, v) h k = k v h

  pub place_with_retry-Adds :
      (P : Call → Type 0) (c : Call) (ds : List ℕ) (w : World E)
      → P c
      → Adds E P w (place_with_retry E c ds w).1
  unfolding place_with_retry
  place_with_retry-Adds P c [] w p = attempt-Adds P c w p
  place_with_retry-Adds P c (d ∷ ds) w p =
      or_again-Adds P _ w (attempt E c w) (attempt-Adds P c w p) λ v h.
        Adds-trans E P w (sleep E d v) _ (sleep-Adds E P d w v h)
          (place_with_retry-Adds P c ds (sleep E d v) p)

  look_up-Adds :
      (symbol : String) (id : Text) (w : World E) → Adds E Protecting w (look_up E symbol id w).1
  unfolding look_up
  look_up-Adds symbol id w = call-Adds E Protecting (get_open_algo_orders symbol) w (look symbol)

  pub confirm-Adds :
      (symbol : String) (id : Text) (ds : List ℕ) (w : World E)
      → Adds E Protecting w (confirm_open_order E symbol id ds w).1
  unfolding confirm_open_order
  confirm-Adds symbol id [] w = look_up-Adds symbol id w
  confirm-Adds symbol id (d ∷ ds) w =
      or_again-Adds Protecting _ w (look_up E symbol id w) (look_up-Adds symbol id w) λ v h.
        Adds-trans E Protecting w (sleep E d v) _ (sleep-Adds E Protecting d w v h)
          (confirm-Adds symbol id ds (sleep E d v))

  -- The exchange's latest answer was a list of open orders with the id.
  pub record Listed (symbol : String) (id : Text) (w : World E) : Type 0 where
    pub before : E.State
    pub orders : List ExchangeOrder
    pub answered : E.perform (get_open_algo_orders symbol) before ≡ (ok orders, w.state)
    pub listed : is_listed id orders ≡ true

  look_up-Listed :
      (symbol : String) (id : Text) (w : World E)
      → (look_up E symbol id w).0 ≡ true
      → Listed symbol id (look_up E symbol id w).1
  unfolding look_up call
  look_up-Listed symbol id w h = go (E.perform (get_open_algo_orders symbol) w.state) refl h
    where
      go :
          (o : Result (List ExchangeOrder) × E.State)
          → E.perform (get_open_algo_orders symbol) w.state ≡ o
          → found id (E.perform (get_open_algo_orders symbol) w.state).0 ≡ true
          → Listed symbol id (look_up E symbol id w).1
      go (ok orders, s) e h = record {
        before = w.state;
        orders = orders;
        answered = cc;
        listed = rw e at h;
      }
      go (err x, s) e h = cc (ap (λ (p : Result (List ExchangeOrder) × E.State). found id p.0) e)

  or_again-Listed :
      (symbol : String) (id : Text) (again : World E → Bool × World E) (o : Bool × World E)
      → (o.0 ≡ true → Listed symbol id o.1)
      → ((v : World E) → (again v).0 ≡ true → Listed symbol id (again v).1)
      → (or_again E again o).0 ≡ true
      → Listed symbol id (or_again E again o).1
  or_again-Listed symbol id again (true, v) h k e = h refl
  or_again-Listed symbol id again (false, v) h k e = k v e

  -- A confirmed order is one that the exchange lists.
  pub confirm_open_order-Listed :
      (symbol : String) (id : Text) (ds : List ℕ) (w : World E)
      → (confirm_open_order E symbol id ds w).0 ≡ true
      → Listed symbol id (confirm_open_order E symbol id ds w).1
  unfolding confirm_open_order
  confirm_open_order-Listed symbol id [] w e = look_up-Listed symbol id w e
  confirm_open_order-Listed symbol id (d ∷ ds) w e =
      or_again-Listed symbol id _ (look_up E symbol id w) (look_up-Listed symbol id w)
        (λ v. confirm_open_order-Listed symbol id ds (sleep E d v)) e
