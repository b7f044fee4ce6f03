-- ===== src/Core/Orders/Total.antt =====
-- services/core_engine/orders.py: protecting a position raises nothing, whatever the exchange does.
use mrrik_ai_bot.Prelude.{
  ℕ, ◌≡◌, ◌<◌, ◌^◌, refl, Bool, true, false, List, [], ◌∷◌, Option, none, some, Result, ok, err,
  All, if◌then◌else◌,
}
use mrrik_ai_bot.Prelude.Text.{Text}
use mrrik_ai_bot.Signal.Types.{SignalSide}
use mrrik_ai_bot.Exchange.{
  Exchange, World, OrderSide, place_stop_market, to_close, to_binance_order_side,
}
use mrrik_ai_bot.Exchange.Action.{Action, lift, safely, resume, pure, ◌>>=◌}
use mrrik_ai_bot.Core.Ids.{Purpose, client_order_id, needs_leg}
use mrrik_ai_bot.Core.Ids.Bounds.{LegBelow, client_order_id-total}
use mrrik_ai_bot.Core.Orders.{
  TradeRef, OrderPlan, PlannedLeg, confirm_open_order, retry_delays, emergency_close, order_request,
  place_with_retry, place_leg, place_legs, after_confirm, protect, place_protective_orders,
}

abbrev pub Settles : {W A : Type 0} → Result A × W → Type 0
Settles {W} {A} o = (a : A) × (o.0 ≡ ok a)

resume-Settles :
    {W A B : Type 0} (k : A → Action W B) (o : Result A × W)
    → Settles o
    → ((a : A) (w : W) → Settles (k a w))
    → Settles (resume k o)
resume-Settles k (ok a, w) h g = g a w
resume-Settles k (err e, w) (a, h) g = cc

-- Ids of at most 18 digits, and leg indices below 100.
pub record HasIds (trade : TradeRef) (plan : OrderPlan) : Type 0 where
  pub positive : 0 < trade.id
  pub small : trade.id < 10 ^ 18
  pub legs : All (λ (leg : PlannedLeg). LegBelow (some leg.leg_index)) plan.legs

module _ (E : Exchange) (trade : TradeRef) (plan : OrderPlan) (ids : HasIds trade plan) where
  id-Settles :
      (p : Purpose) (leg : Option ℕ) (w : World E)
      → LegBelow leg
      → needs_leg p leg ≡ false
      → Settles (lift (client_order_id trade.id p leg) w)
  id-Settles p leg w below given =
      let (id, made, _, _) =
        client_order_id-total trade.id p leg ids.positive ids.small below given in
      (id, made)

  place_legs-Settles :
      (side : OrderSide) (position : SignalSide) (legs : List PlannedLeg)
      → All (λ (leg : PlannedLeg). LegBelow (some leg.leg_index)) legs
      → (w : World E) → Settles (place_legs E trade side position legs w)
  unfolding place_legs
  place_legs-Settles side position [] h w = ([], refl)
  place_legs-Settles side position (leg ∷ legs) h w =
      let rest = place_legs E trade side position legs in
      let note = λ (placed : Bool) (id : Text) (tp_ids : List Text).
        pure {W = World E} (if placed then id ∷ tp_ids else tp_ids) in
      resume-Settles
        (λ id.
          safely (place_leg E trade side position leg id) >>= λ placed. rest >>= note placed id)
        (lift (client_order_id trade.id Purpose.tp (some leg.leg_index)) w)
        (id-Settles Purpose.tp (some leg.leg_index) w h.0 refl)
        λ id v.
          resume-Settles (λ placed. rest >>= note placed id)
            (safely (place_leg E trade side position leg id) v) (_, refl)
            λ placed u.
              resume-Settles (note placed id) (rest u) (place_legs-Settles side position legs h.1 u)
                λ tp_ids t. (_, refl)

  after_confirm-Settles :
      (position : SignalSide) (sl_id : Text) (confirmed : Bool) (w : World E)
      → Settles (after_confirm E trade plan position sl_id confirmed w)
  unfolding after_confirm emergency_close
  after_confirm-Settles position sl_id true w =
      resume-Settles _
        (place_legs E trade (to_binance_order_side trade.side to_close) position plan.legs w)
        (place_legs-Settles (to_binance_order_side trade.side to_close) position plan.legs ids.legs
          w)
        λ tp_ids v. (_, refl)
  after_confirm-Settles position sl_id false w =
      resume-Settles _ (lift (client_order_id trade.id Purpose.emergency_close none) w)
        (id-Settles Purpose.emergency_close none w tt refl) λ id v. (_, refl)

  -- For a trade id of at most 18 digits and legs below 100, protecting a position returns a result:
  -- no exception of the exchange, at whatever call, gets out of it.
  pub place_protective_orders-Settles :
      (position : SignalSide) (w : World E)
      → Settles (place_protective_orders E trade plan position w)
  unfolding place_protective_orders protect
  place_protective_orders-Settles position w =
      let look = λ (sl_id : Text). safely (confirm_open_order E trade.symbol sl_id retry_delays) in
      let stop = λ (sl_id : Text). safely (
        place_with_retry E
          (place_stop_market
            (order_request trade (to_binance_order_side trade.side to_close) position sl_id)
            plan.qty plan.stop_loss)
          retry_delays) in
      resume-Settles
        (λ sl_id. stop sl_id >>= λ _. look sl_id >>= after_confirm E trade plan position sl_id)
        (lift (client_order_id trade.id Purpose.sl none) w) (id-Settles Purpose.sl none w tt refl)
        λ sl_id v.
          resume-Settles (λ _. look sl_id >>= after_confirm E trade plan position sl_id)
            (stop sl_id v) (_, refl)
            λ _ u.
              resume-Settles (after_confirm E trade plan position sl_id) (look sl_id u) (_, refl)
                λ confirmed t. after_confirm-Settles position sl_id confirmed t
