-- ===== src/Core/Reconciliation/Protected.antt =====
-- services/core_engine/reconciliation.py: what protects a trade after it was examined.
use mrrik_ai_bot.Prelude.{ℕ, ◌≡◌, refl, ap, true, List, [], ◌∷◌, Option, none, some, ok, subst}
use mrrik_ai_bot.Decimal.{of_ℕ, lt}
use mrrik_ai_bot.Exchange.{
  Exchange, World, ExchangeOrder, PositionSnapshot, call, get_position, get_open_algo_orders,
  to_binance_position_side,
}
use mrrik_ai_bot.Exchange.Action.{pure, >>=-ok, ◌>>=◌, ◌>>◌}
use mrrik_ai_bot.Exchange.Trace.{Adds}
use mrrik_ai_bot.Core.Trades.{Trade}
use mrrik_ai_bot.Core.Lifecycle.{remaining_qty}
use mrrik_ai_bot.Core.Reconciliation.{
  examined, Bench, on_exchange, repair_stop, repair_legs, repair_orders, compare, reconcile_trade,
}
use mrrik_ai_bot.Core.Reconciliation.Quiet.{Repairing, repair_legs-Quiet, compare-Reviewed}
use mrrik_ai_bot.Core.Reconciliation.Covered.{
  StopCovered, LegsCovered, stop-later, repair_stop-StopCovered, repair_legs-LegsCovered,
}

module _ (E : Exchange) where
  -- With the orders that the exchange listed, the stop loss, where something of the position is
  -- left, and the take-profit of each open leg are covered.
  pub record Covered (t : Trade) (orders : List ExchangeOrder) (w : World E) : Type 0 where
    pub stop : lt (of_ℕ 0) (remaining_qty t) ≡ true → StopCovered E t orders w
    pub legs : LegsCovered E t orders w t.legs

  -- The exchange showed a position and listed its orders, the trade is covered, and since the orders
  -- were listed there were only looks, stop losses and take-profits.
  pub record Protected (t : Trade) (start w : World E) : Type 0 where
    pub position : PositionSnapshot
    pub asked : World E
    pub held :
        call E (get_position t.symbol (to_binance_position_side t.side)) start
        ≡ (ok (some position), asked)
    pub orders : List ExchangeOrder
    pub looked : World E
    pub listed : call E (get_open_algo_orders t.symbol) asked ≡ (ok orders, looked)
    pub covered : Covered t orders w
    pub since : Adds E Repairing looked w

  repair_orders-Covered :
      (signal : Option ℕ) (t : Trade) (orders : List ExchangeOrder) (b v : Bench E)
      → repair_orders E signal t orders b ≡ (ok examined, v)
      → Covered t orders v.world
  repair_orders-Covered none t orders b v e = cc
  repair_orders-Covered (some s) t orders b v e =
      let (u, x, stopped, rest) =
        >>=-ok (repair_stop E t orders) (λ _. repair_legs E t orders t.legs >> pure examined) b
          examined v e in
      let (u', y, placed, last) =
        >>=-ok (repair_legs E t orders t.legs) (λ _. pure examined) x examined v rest in
      let end = subst (λ w. Covered t orders w) (ap (λ p. p.1.world) last) in
      end (record {
        stop = λ h.
            stop-later E t orders x.world y.world (repair_stop-StopCovered E t orders b x stopped h)
              (subst (λ w. Adds E Repairing x.world w) (ap (λ p. p.1.world) placed)
                (repair_legs-Quiet E t orders t.legs x).calls);
        legs = repair_legs-LegsCovered E t orders t.legs x y placed;
      })

  -- A trade that went through as examined had a position on the exchange.
  compare-Covered :
      (t : Trade) (p : Option PositionSnapshot) (orders : List ExchangeOrder) (b v : Bench E)
      → compare E t p orders b ≡ (ok examined, v)
      → (position : PositionSnapshot) × (p ≡ some position) × Covered t orders v.world
  compare-Covered t none [] b v e = cc
  compare-Covered t none (o ∷ os) b v e = cc
  compare-Covered t (some p) orders b v e =
      (p, refl, repair_orders-Covered t.signal_id t orders b v e)

  -- When a trade was examined and nothing raised, the exchange held its position and listed its
  -- orders; the stop loss is among those orders or was accepted by the exchange, where something of
  -- the position is left, and so is the take-profit of each open leg. From the listing of the orders
  -- to the end the trade's account was only looked at and stop losses and take-profits were placed,
  -- so the bot canceled none of these orders.
  pub reconcile_trade-Protected :
      (t : Trade) (b v : Bench E)
      → reconcile_trade E t b ≡ (ok examined, v)
      → Protected t b.world v.world
  unfolding reconcile_trade
  reconcile_trade-Protected t b v e =
      let side = to_binance_position_side t.side in
      let (p, x, held, rest) =
        >>=-ok (on_exchange E (call E (get_position t.symbol side)))
          (λ p. on_exchange E (call E (get_open_algo_orders t.symbol)) >>= λ orders.
            compare E t p orders)
          b examined v e in
      let (orders, y, listed, last) =
        >>=-ok (on_exchange E (call E (get_open_algo_orders t.symbol)))
          (λ orders. compare E t p orders) x examined v rest in
      let (position, is_some, covered) = compare-Covered t p orders y v last in
      record {
        position = position;
        asked = x.world;
        held =
            subst (λ o. call E (get_position t.symbol side) b.world ≡ (ok o, x.world)) is_some
              (ap (λ p. (p.0, p.1.world)) held);
        orders = orders;
        looked = y.world;
        listed = ap (λ p. (p.0, p.1.world)) listed;
        covered = covered;
        since =
            subst (λ u. Adds E Repairing y.world u) (ap (λ o. o.1.world) last)
              (compare-Reviewed E t p orders y).calls;
      }
