-- ===== src/Core/Reconciliation/Quiet.antt =====
-- services/core_engine/reconciliation.py: what a pass calls on the exchange and does to the trades.
use mrrik_ai_bot.Prelude.{
  ℕ, ◌≡◌, refl, ap, sym, ◌∙◌, Bool, true, false, List, [], ◌∷◌, Option, none, some, Result, ok, err,
  String, if◌then◌else◌,
}
use mrrik_ai_bot.Prelude.Text.{Text}
use mrrik_ai_bot.Decimal.{Decimal, of_ℕ, lt}
use mrrik_ai_bot.Signal.Types.{SignalSide}
use mrrik_ai_bot.Exchange.{
  Exchange, Call, ExchangeOrder, OrderRequest, PositionSnapshot, call, is_listed, get_position,
  get_open_algo_orders, place_stop_market, place_take_profit_market, to_binance_position_side,
}
use mrrik_ai_bot.Exchange.Action.{Action, pure, lift, resume, Keeps, >>=-Keeps, ◌>>=◌, ◌>>◌}
use mrrik_ai_bot.Exchange.Trace.{Adds, Adds-refl, Adds-trans, call-Adds}
use mrrik_ai_bot.Core.Ids.{Purpose, client_order_id}
use mrrik_ai_bot.Core.Trades.{
  Trade, TradeLeg, TradeStatus, set_trade_sl_order, trade_closed, close_trade,
}
use mrrik_ai_bot.Core.Repository.{set_leg_tp_order}
use mrrik_ai_bot.Core.Lifecycle.{remaining_qty}
use mrrik_ai_bot.Core.Reconciliation.{
  Verdict, closed_missing, without_position, without_signal, examined, stop_id, leg_id, stop_call,
  leg_call, Bench, on_exchange, note, place_stop, repair_stop, place_leg, repair_leg, is_open,
  repair_legs, repair_orders, compare, reconcile_trade,
}

-- Reading, and placing a stop loss or a take-profit.
pub data Repairing : Call → Type 0 where
  position : (symbol : String) (side : SignalSide) → Repairing (get_position symbol side)
  look : (symbol : String) → Repairing (get_open_algo_orders symbol)
  stop : (r : OrderRequest) (q p : Decimal) → Repairing (place_stop_market r q p)
  take_profit : (r : OrderRequest) (q p : Decimal) → Repairing (place_take_profit_market r q p)

module _ (E : Exchange) where
  -- Nothing is canceled or closed on the exchange, and the trade keeps its status.
  pub record Quiet (b b' : Bench E) : Type 0 where
    pub calls : Adds E Repairing b.world b'.world
    pub same_status : b'.trade.status ≡ b.trade.status

  pub Quiet-refl : (b : Bench E) → Quiet b b
  Quiet-refl b = record { calls = Adds-refl E Repairing b.world; same_status = refl }

  pub Quiet-trans : (u v w : Bench E) → Quiet u v → Quiet v w → Quiet u w
  Quiet-trans u v w p q = record {
    calls = Adds-trans E Repairing u.world v.world w.world p.calls q.calls;
    same_status = q.same_status ∙ p.same_status;
  }

  lift-Quiet : {A : Type 0} (r : Result A) → Keeps Quiet (lift r)
  lift-Quiet r b = Quiet-refl b

  pub call-Quiet : (c : Call) → Repairing c → Keeps Quiet (on_exchange E (call E c))
  call-Quiet c p b = record { calls = call-Adds E Repairing c b.world p; same_status = refl }

  note-Quiet :
      (f : Trade → Trade) → ((t : Trade) → (f t).status ≡ t.status) → Keeps Quiet (note E f)
  note-Quiet f same b = record { calls = Adds-refl E Repairing b.world; same_status = same b.trade }

  choose-Quiet :
      {A : Type 0} (c : Bool) (m n : Action (Bench E) A)
      → Keeps Quiet m
      → Keeps Quiet n
      → Keeps Quiet (if c then m else n)
  choose-Quiet true m n p q = p
  choose-Quiet false m n p q = q

  bind-Quiet :
      {A B : Type 0} (m : Action (Bench E) A) (k : A → Action (Bench E) B)
      → Keeps Quiet m
      → ((a : A) → Keeps Quiet (k a))
      → Keeps Quiet (m >>= k)
  bind-Quiet = >>=-Keeps Quiet Quiet-trans

  nothing-Quiet : Keeps Quiet (pure tt)
  nothing-Quiet b = Quiet-refl b

  then_note-Quiet :
      (c : Call) (f : Trade → Trade)
      → Repairing c
      → ((t : Trade) → (f t).status ≡ t.status)
      → Keeps Quiet (on_exchange E (call E c) >> note E f)
  then_note-Quiet c f p same = bind-Quiet _ (λ _. note E f) (call-Quiet c p) λ _. note-Quiet f same

  place_stop-Quiet : (t : Trade) (id : Text) → Keeps Quiet (place_stop E t id)
  unfolding place_stop
  place_stop-Quiet t id =
      bind-Quiet _
        (λ be_id.
          on_exchange E (call E (stop_call t be_id id))
          >> note E (λ trade. set_trade_sl_order trade id))
        (lift-Quiet (client_order_id t.id Purpose.be_sl none))
        λ be_id.
          then_note-Quiet (stop_call t be_id id) (λ trade. set_trade_sl_order trade id) (stop _ _ _)
            λ trade. refl

  place_leg-Quiet : (t : Trade) (leg : TradeLeg) (id : Text) → Keeps Quiet (place_leg E t leg id)
  unfolding place_leg set_leg_tp_order
  place_leg-Quiet t leg id =
      then_note-Quiet (leg_call t leg id) (set_leg_tp_order leg.leg_index id) (take_profit _ _ _)
        λ trade. refl

  repair_stop-Quiet :
      (t : Trade) (orders : List ExchangeOrder) → Keeps Quiet (repair_stop E t orders)
  unfolding repair_stop
  repair_stop-Quiet t orders =
      bind-Quiet _
        (λ id.
          if is_listed id orders
          then pure tt
          else if lt (of_ℕ 0) (remaining_qty t)
          then place_stop E t id
          else pure tt)
        (lift-Quiet (stop_id t))
        λ id. choose-Quiet (is_listed id orders) (pure tt) _ nothing-Quiet (
          choose-Quiet (lt (of_ℕ 0) (remaining_qty t)) (place_stop E t id) (pure tt)
            (place_stop-Quiet t id) nothing-Quiet)

  repair_leg-Quiet :
      (t : Trade) (orders : List ExchangeOrder) (leg : TradeLeg)
      → Keeps Quiet (repair_leg E t orders leg)
  unfolding repair_leg
  repair_leg-Quiet t orders leg =
      bind-Quiet _ (λ id. if is_listed id orders then pure tt else place_leg E t leg id)
        (lift-Quiet (leg_id t.id leg))
        λ id.
          choose-Quiet (is_listed id orders) (pure tt) _ nothing-Quiet (place_leg-Quiet t leg id)

  pub repair_legs-Quiet :
      (t : Trade) (orders : List ExchangeOrder) (legs : List TradeLeg)
      → Keeps Quiet (repair_legs E t orders legs)
  unfolding repair_legs
  repair_legs-Quiet t orders [] = nothing-Quiet
  repair_legs-Quiet t orders (leg ∷ legs) =
      bind-Quiet _ (λ _. repair_legs E t orders legs)
        (choose-Quiet (is_open E leg.status) _ (pure tt) (repair_leg-Quiet t orders leg)
          nothing-Quiet)
        λ _. repair_legs-Quiet t orders legs

  -- The status that the trade has once the verdict on it is known.
  abbrev pub status_after : Result Verdict → TradeStatus → TradeStatus
  status_after (ok closed_missing) status = trade_closed
  status_after _ status = status

  -- How the look at a trade ends: only a trade that went missing changes its status.
  pub record Reviewed (b : Bench E) (o : Result Verdict × Bench E) : Type 0 where
    pub calls : Adds E Repairing b.world o.1.world
    pub status : o.1.trade.status ≡ status_after o.0 b.trade.status

  resume-Reviewed :
      {A : Type 0} (b : Bench E) (k : A → Action (Bench E) Verdict) (o : Result A × Bench E)
      → Quiet b o.1
      → ((a : A) (v : Bench E) → Reviewed v (k a v))
      → Reviewed b (resume k o)
  resume-Reviewed b k (err e, v) h rest = record { calls = h.calls; status = h.same_status }
  resume-Reviewed b k (ok a, v) h rest =
      let r = rest a v in
      record {
        calls = Adds-trans E Repairing b.world v.world _ h.calls r.calls;
        status = r.status ∙ ap (status_after _) h.same_status;
      }

  stays :
      (b : Bench E) (v : Verdict) (s : status_after (ok v) b.trade.status ≡ b.trade.status)
      → Reviewed b (ok v, b)
  stays b v s = record { calls = Adds-refl E Repairing b.world; status = sym s }

  repair_orders-Reviewed :
      (signal : Option ℕ) (t : Trade) (orders : List ExchangeOrder) (b : Bench E)
      → Reviewed b (repair_orders E signal t orders b)
  repair_orders-Reviewed none t orders b = stays b without_signal refl
  repair_orders-Reviewed (some s) t orders b =
      resume-Reviewed b _ (repair_stop E t orders b) (repair_stop-Quiet t orders b) λ _ v.
        resume-Reviewed v _ (repair_legs E t orders t.legs v) (repair_legs-Quiet t orders t.legs v)
          λ _ w. stays w examined refl

  pub compare-Reviewed :
      (t : Trade) (p : Option PositionSnapshot) (orders : List ExchangeOrder) (b : Bench E)
      → Reviewed b (compare E t p orders b)
  unfolding close_trade
  compare-Reviewed t none [] b = record { calls = Adds-refl E Repairing b.world; status = refl }
  compare-Reviewed t none (o ∷ os) b = stays b without_position refl
  compare-Reviewed t (some p) orders b = repair_orders-Reviewed t.signal_id t orders b

  pub repair_orders-Quiet :
      (signal : Option ℕ) (t : Trade) (orders : List ExchangeOrder)
      → Keeps Quiet (repair_orders E signal t orders)
  repair_orders-Quiet none t orders = λ b. Quiet-refl b
  repair_orders-Quiet (some s) t orders =
      bind-Quiet _ (λ _. repair_legs E t orders t.legs >> pure examined)
        (repair_stop-Quiet t orders)
        λ _.
          bind-Quiet _ (λ _. pure examined) (repair_legs-Quiet t orders t.legs) λ _ b. Quiet-refl b

  pub reconcile_trade-Reviewed : (t : Trade) (b : Bench E) → Reviewed b (reconcile_trade E t b)
  unfolding reconcile_trade
  reconcile_trade-Reviewed t b =
      let side = to_binance_position_side t.side in
      resume-Reviewed b
        (λ p.
          on_exchange E (call E (get_open_algo_orders t.symbol)) >>= λ orders. compare E t p orders)
        (on_exchange E (call E (get_position t.symbol side)) b)
        (call-Quiet (get_position t.symbol side) (position _ _) b)
        λ p v.
          resume-Reviewed v (λ orders. compare E t p orders)
            (on_exchange E (call E (get_open_algo_orders t.symbol)) v)
            (call-Quiet (get_open_algo_orders t.symbol) (look _) v)
            λ orders w. compare-Reviewed t p orders w
