-- ===== src/Core/Orders/Ordered.antt =====
-- services/core_engine/orders.py: the order in which a position is protected, and the emergency
-- close of a position that could not be.
use mrrik_ai_bot.Prelude.{
  ℕ, ◌≡◌, ◌≢◌, refl, subst, ◌⊎◌, inl, inr, Bool, true, false, String, List, [], ◌∷◌, none, some,
  Result, ok, err, if◌then◌else◌,
}
use mrrik_ai_bot.Prelude.Text.{Text}
use mrrik_ai_bot.Signal.Types.{SignalSide}
use mrrik_ai_bot.Exchange.{
  Exchange, World, Call, OrderSide, OrderRequest, place_stop_market, close_position_market,
  cancel_open_orders, call, sleep, to_close, to_binance_order_side,
}
use mrrik_ai_bot.Exchange.Action.{resume, pure, lift, safely, ◌>>=◌, >>=-Keeps, Keeps}
use mrrik_ai_bot.Exchange.Trace.{Adds, Adds-refl, Adds-trans, Adds-weaken, call-Adds, sleep-Adds}
use mrrik_ai_bot.Core.Ids.{Purpose, client_order_id}
use mrrik_ai_bot.Core.Orders.{
  TradeRef, OrderPlan, PlannedLeg, OpenStatus, OpenTradeResult, opened, emergency_closed,
  emergency_close_failed, attempt, place_with_retry, confirm_open_order, cleanup, close_or_again,
  emergency_close_loop, emergency_close, place_leg, place_legs, after_confirm, protect,
  place_protective_orders, retry_delays, order_request,
}
use mrrik_ai_bot.Core.Orders.Protective.{
  Protecting, TakeProfit, Closing, attempt-Adds, place_with_retry-Adds, confirm-Adds, Listed,
  confirm_open_order-Listed,
}

-- Every call of the bot that is no take-profit order, as far as protecting a position makes it.
pub data Other (c : Call) : Type 0 where
  protecting : Protecting c → Other c
  closing : Closing c → Other c

module _ (E : Exchange) where
  cleanup-Adds : (symbol : String) (w : World E) → Adds E Closing w (cleanup E symbol w)
  unfolding cleanup
  cleanup-Adds symbol w =
      Adds-trans E Closing w (call E (cancel_open_orders symbol) w).1 _
        (call-Adds E Closing _ w (Closing.cancel_open symbol))
        (call-Adds E Closing _ _ (Closing.cancel_algo symbol))

  -- What an emergency close reports, and the calls that it makes.
  IsEmergency : World E → OpenTradeResult × World E → Type 0
  IsEmergency w (r, w') =
      ((r.status ≡ emergency_closed) ⊎ (r.status ≡ emergency_close_failed)) × Adds E Closing w w'

  close_or_again-IsEmergency :
      (symbol : String) (again : World E → OpenTradeResult × World E) (w : World E)
      (o : Bool × World E)
      → Adds E Closing w o.1
      → ((v : World E) → Adds E Closing w v → IsEmergency w (again v))
      → IsEmergency w (close_or_again E symbol again o)
  unfolding close_or_again IsEmergency
  close_or_again-IsEmergency symbol again w (true, v) h k =
      (inl refl, Adds-trans E Closing w v _ h (cleanup-Adds symbol v))
  close_or_again-IsEmergency symbol again w (false, v) h k = k v h

  emergency_close_loop-IsEmergency :
      (r : OrderRequest) (ds : List ℕ) (u w : World E)
      → Adds E Closing u w
      → IsEmergency u (emergency_close_loop E r ds w)
  unfolding emergency_close_loop IsEmergency
  emergency_close_loop-IsEmergency r [] u w h =
      close_or_again-IsEmergency r.symbol _ u (attempt E (close_position_market r none) w)
        (Adds-trans E Closing u w _ h (attempt-Adds E Closing _ w (Closing.close r)))
        λ v k. (inr refl, k)
  emergency_close_loop-IsEmergency r (d ∷ ds) u w h =
      close_or_again-IsEmergency r.symbol _ u (attempt E (close_position_market r none) w)
        (Adds-trans E Closing u w _ h (attempt-Adds E Closing _ w (Closing.close r)))
        λ v k. emergency_close_loop-IsEmergency r ds u (sleep E d v) (sleep-Adds E Closing d u v k)

  place_leg-Adds :
      (trade : TradeRef) (side : OrderSide) (position : SignalSide) (leg : PlannedLeg) (id : Text)
      → Keeps (Adds E TakeProfit) (safely (place_leg E trade side position leg id))
  unfolding place_leg
  place_leg-Adds trade side position leg id w =
      place_with_retry-Adds E TakeProfit _ retry_delays w (TakeProfit.take_profit _ _ _)

  place_legs-Adds :
      (trade : TradeRef) (side : OrderSide) (position : SignalSide) (legs : List PlannedLeg)
      → Keeps (Adds E TakeProfit) (place_legs E trade side position legs)
  unfolding place_legs
  place_legs-Adds trade side position [] = Adds-refl E TakeProfit
  place_legs-Adds trade side position (leg ∷ legs) =
      let later = λ (placed : Bool) (id : Text).
        place_legs E trade side position legs >>= λ ids. pure (if placed then id ∷ ids else ids) in
      >>=-Keeps (Adds E TakeProfit) (Adds-trans E TakeProfit)
        (lift (client_order_id trade.id Purpose.tp (some leg.leg_index)))
        (λ id. safely (place_leg E trade side position leg id) >>= λ placed. later placed id)
        (Adds-refl E TakeProfit)
        λ id.
          >>=-Keeps (Adds E TakeProfit) (Adds-trans E TakeProfit)
            (safely (place_leg E trade side position leg id)) (λ placed. later placed id)
            (place_leg-Adds trade side position leg id)
            λ placed.
              >>=-Keeps (Adds E TakeProfit) (Adds-trans E TakeProfit)
                (place_legs E trade side position legs)
                (λ ids. pure (if placed then id ∷ ids else ids))
                (place_legs-Adds trade side position legs) λ ids. Adds-refl E TakeProfit

  -- The stop loss is the one that the result names, it was listed by the exchange before the first
  -- take-profit order, and from then on there were only take-profit orders.
  pub record OpenedAfter (trade : TradeRef) (w : World E) (r : OpenTradeResult) (w' : World E)
      : Type 0 where
    pub sl_id : Text
    pub sl_made : client_order_id trade.id Purpose.sl none ≡ ok sl_id
    pub sl_named : r.sl_order_id ≡ some sl_id
    pub listed_at : World E
    pub before : Adds E Protecting w listed_at
    pub listed : Listed E trade.symbol sl_id listed_at
    pub after : Adds E TakeProfit listed_at w'

  Ordered : TradeRef → World E → Result OpenTradeResult × World E → Type 0
  Ordered trade w (ok r, w') =
      (r.status ≡ opened → OpenedAfter trade w r w') × (r.status ≢ opened → Adds E Other w w')
  Ordered trade w (err e, w') = Unit

  never_opened :
      (s : OpenStatus) → (s ≡ emergency_closed) ⊎ (s ≡ emergency_close_failed) → s ≡ opened → ⊥
  never_opened s (inl p) e = cc
  never_opened s (inr p) e = cc

  emergency-Ordered :
      (trade : TradeRef) (side : OrderSide) (position : SignalSide) (u w : World E)
      → Adds E Other u w
      → Ordered trade u (emergency_close E trade side position w)
  unfolding emergency_close Ordered IsEmergency
  emergency-Ordered trade side position u w h =
      go (client_order_id trade.id Purpose.emergency_close none)
    where
      go :
          (o : Result Text)
          → Ordered trade u (
              resume
                (λ id.
                  safely
                    (emergency_close_loop E (order_request trade side position id) retry_delays))
                (o, w))
      go (err e) = tt
      go (ok id) =
          let (status, made) =
            emergency_close_loop-IsEmergency (order_request trade side position id) retry_delays w w
              (Adds-refl E Closing w) in
          (
            (λ e. absurd (never_opened _ status e)),
            λ _.
                Adds-trans E Other u w _ h
                  (Adds-weaken E Closing Other _ _ (λ c p. closing p) made),
          )

  after_confirm-Ordered :
      (trade : TradeRef) (plan : OrderPlan) (position : SignalSide) (sl_id : Text) (u w : World E)
      (confirmed : Bool)
      → client_order_id trade.id Purpose.sl none ≡ ok sl_id
      → Adds E Protecting u w
      → (confirmed ≡ true → Listed E trade.symbol sl_id w)
      → Ordered trade u (after_confirm E trade plan position sl_id confirmed w)
  unfolding after_confirm Ordered
  after_confirm-Ordered trade plan position sl_id u w true made before listed =
      go (place_legs E trade side position plan.legs w)
        (place_legs-Adds trade side position plan.legs w)
    where
      side : OrderSide
      side = to_binance_order_side trade.side to_close

      result : List Text → OpenTradeResult
      result ids = record {
        status = opened;
        reason = none;
        entry_order_id = none;
        sl_order_id = some sl_id;
        tp_order_ids = ids;
      }

      go :
          (o : Result (List Text) × World E)
          → Adds E TakeProfit w o.1
          → Ordered trade u (resume (λ ids. pure (result ids)) o)
      go (err e, v) h = tt
      go (ok ids, v) h = (
        (λ _. record {
          sl_id = sl_id;
          sl_made = made;
          sl_named = refl;
          listed_at = w;
          before = before;
          listed = listed refl;
          after = h;
        }),
        λ ne. absurd (ne refl),
      )
  after_confirm-Ordered trade plan position sl_id u w false made before listed =
      emergency-Ordered trade (to_binance_order_side trade.side to_close) position u w
        (Adds-weaken E Protecting Other u w (λ c p. protecting p) before)

  protect-Ordered :
      (trade : TradeRef) (plan : OrderPlan) (position : SignalSide) (sl_id : Text) (w : World E)
      → client_order_id trade.id Purpose.sl none ≡ ok sl_id
      → Ordered trade w (protect E trade plan position sl_id w)
  unfolding protect
  protect-Ordered trade plan position sl_id w made =
      let side = to_binance_order_side trade.side to_close in
      let request = order_request trade side position sl_id in
      let placed =
        place_with_retry E (place_stop_market request plan.qty plan.stop_loss) retry_delays w in
      let seen = confirm_open_order E trade.symbol sl_id retry_delays placed.1 in
      after_confirm-Ordered trade plan position sl_id w seen.1 seen.0 made
        (Adds-trans E Protecting w placed.1 seen.1
          (place_with_retry-Adds E Protecting _ retry_delays w
            (Protecting.stop request plan.qty plan.stop_loss))
          (confirm-Adds E trade.symbol sl_id retry_delays placed.1))
        (confirm_open_order-Listed E trade.symbol sl_id retry_delays placed.1)

  place_protective_orders-Ordered :
      (trade : TradeRef) (plan : OrderPlan) (position : SignalSide) (w : World E)
      → Ordered trade w (place_protective_orders E trade plan position w)
  unfolding place_protective_orders Ordered
  place_protective_orders-Ordered trade plan position w =
      go (client_order_id trade.id Purpose.sl none) refl
    where
      go :
          (o : Result Text)
          → client_order_id trade.id Purpose.sl none ≡ o
          → Ordered trade w (resume (λ sl_id. protect E trade plan position sl_id) (o, w))
      go (err e) p = tt
      go (ok sl_id) p = protect-Ordered trade plan position sl_id w p

  -- A trade is reported as opened only after the exchange has listed its stop loss under the id that
  -- the result names. Before that there were only attempts to place the stop and looks at the open
  -- orders, and from then on only take-profit orders.
  pub place_protective_orders-opened :
      (trade : TradeRef) (plan : OrderPlan) (position : SignalSide) (w w' : World E)
      (r : OpenTradeResult)
      → place_protective_orders E trade plan position w ≡ (ok r, w')
      → r.status ≡ opened
      → OpenedAfter trade w r w'
  unfolding Ordered
  place_protective_orders-opened trade plan position w w' r e =
      (subst (Ordered trade w) e (place_protective_orders-Ordered trade plan position w)).0

  -- Where the protection of a trade returns any other status than opened, it has sent no take-profit
  -- order at all.
  pub place_protective_orders-unopened :
      (trade : TradeRef) (plan : OrderPlan) (position : SignalSide) (w w' : World E)
      (r : OpenTradeResult)
      → place_protective_orders E trade plan position w ≡ (ok r, w')
      → r.status ≢ opened
      → Adds E Other w w'
  unfolding Ordered
  place_protective_orders-unopened trade plan position w w' r e =
      (subst (Ordered trade w) e (place_protective_orders-Ordered trade plan position w)).1
