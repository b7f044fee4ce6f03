-- ===== src/Core/Lifecycle/Closing.antt =====
-- services/core_engine/lifecycle.py: in which state a trade is once it is closed.
use mrrik_ai_bot.Prelude.{
  ℕ, ◌≡◌, ◌≢◌, refl, subst, Bool, true, ◌&&◌, ◌||◌, List, [], ◌∷◌, Option, none, some, Result, ok,
  err, ◌==◌, all, map, All, if◌then◌else◌, if-holds, and_elim, ok-injective,
}
use mrrik_ai_bot.Prelude.Sets.{Increasing, sorted_set-Increasing}
use mrrik_ai_bot.Decimal.{Decimal, of_ℕ, neg, le}
use mrrik_ai_bot.Decimal.Order.{le-max_of}
use mrrik_ai_bot.Exchange.{Exchange, World}
use mrrik_ai_bot.Exchange.Action.{Action, lift, Gives, resume-Gives, any-Gives}
use mrrik_ai_bot.Core.Ids.{Purpose, client_order_id}
use mrrik_ai_bot.Core.Trades.{
  Trade, TradeLeg, LegStatus, ClosedReason, all_tp, trade_closed, leg_open, leg_filled,
  leg_canceled, is_filled, cancel_leg, cancel_status, mark_leg_filled, close_trade,
}
use mrrik_ai_bot.Core.Lifecycle.{
  FillEvent, Outcome, ignored, leg_fill, closed, at_least, blended_sum, blended_pnl, all_filled,
  close_all_tp, move_to_break_even, realized_pnl_for_close, price_at, positive_price, cancel_algo,
  remaining_qty, entry_price, with_entry, roi_from_pnl, handle_leg_fill, is_closed,
}

-- A closed trade has no open leg left, a realized profit or loss, and its touched targets in increasing order.
pub record Ended (t : Trade) : Type 0 where
  pub status : t.status ≡ trade_closed
  pub no_open_leg : All (λ (leg : TradeLeg). leg.status ≢ leg_open) t.legs
  pub touched : Increasing t.touched_tps
  pub settled : t.realized_pnl_usdt ≢ none

cancel_leg-ends :
    (legs : List TradeLeg) → All (λ (leg : TradeLeg). leg.status ≢ leg_open) (map cancel_leg legs)
cancel_leg-ends [] = tt
cancel_leg-ends (leg ∷ legs) = (not_open leg.status, cancel_leg-ends legs)
  where
    not_open : (s : LegStatus) → cancel_status s ≢ leg_open
    not_open leg_open e = cc
    not_open leg_filled e = cc
    not_open leg_canceled e = cc

pub close_trade-Ended :
    (t : Trade) (reason : ClosedReason) (pnl roi : Decimal) (touched : List ℕ)
    → Ended (close_trade t reason pnl roi touched)
unfolding close_trade
close_trade-Ended t reason pnl roi touched = record {
  status = refl;
  no_open_leg = cancel_leg-ends t.legs;
  touched = sorted_set-Increasing touched;
  settled = λ e. cc;
}

at_least-capped :
    (limit pnl : Decimal) (r : Result Decimal) → at_least limit r ≡ ok pnl → le limit pnl ≡ true
at_least-capped limit pnl (ok p) e =
    subst (λ q. le limit q ≡ true) (ok-injective e) (le-max_of p limit)
at_least-capped limit pnl (err x) e = cc

-- A profit that the bot works out itself never loses more than the margin of the trade.
pub blended_pnl-capped :
    (trade : Trade) (at : Option (ℕ × Decimal)) (remaining : Option Decimal) (pnl : Decimal)
    → blended_pnl trade at remaining ≡ ok pnl
    → le (neg trade.margin_usdt) pnl ≡ true
unfolding blended_pnl
blended_pnl-capped trade at remaining pnl e = go (entry_price trade) e
  where
    limited : Result Decimal
    limited =
        if le trade.qty (of_ℕ 0)
        then err "trade quantity must be positive"
        else at_least (neg trade.margin_usdt) (blended_sum trade at remaining trade.legs)

    go :
        (entry : Result Decimal)
        → with_entry entry limited ≡ ok pnl
        → le (neg trade.margin_usdt) pnl ≡ true
    go (err x) f = cc
    go (ok entry) f =
        if-holds (λ r. r ≡ ok pnl → le (neg trade.margin_usdt) pnl ≡ true) (le trade.qty (of_ℕ 0))
          (err "trade quantity must be positive")
          (at_least (neg trade.margin_usdt) (blended_sum trade at remaining trade.legs)) (λ _ f. cc)
          (λ _ f. at_least-capped _ pnl _ f) f

-- What an outcome says of the trade.
abbrev pub Fits : (Trade → Type 0) → Outcome → Type 0
Fits P (closed, t) = P t
Fits P (ignored, t) = Unit
Fits P (leg_fill, t) = Unit

-- A trade that its last leg closes: no leg is left that was not filled.
pub record EndedByLegs (t : Trade) : Type 0 where
  pub ended : Ended t
  pub reason : t.closed_reason ≡ some all_tp
  pub every_leg_filled : All (λ (leg : TradeLeg). leg.status ≡ leg_filled) t.legs

filled_status : (s : LegStatus) → is_filled s ≡ true → cancel_status s ≡ leg_filled
filled_status leg_filled e = refl
filled_status leg_open e = cc
filled_status leg_canceled e = cc

all-filled :
    (legs : List TradeLeg)
    → all (λ (l : TradeLeg). is_filled l.status) legs ≡ true
    → All (λ (leg : TradeLeg). leg.status ≡ leg_filled) (map cancel_leg legs)
all-filled [] h = tt
all-filled (leg ∷ legs) h =
    let (here, rest) = and_elim _ _ h in (filled_status leg.status here, all-filled legs rest)

all_filled-all :
    (legs : List TradeLeg)
    → all_filled legs ≡ true
    → all (λ (l : TradeLeg). is_filled l.status) legs ≡ true
all_filled-all [] h = cc
all_filled-all (leg ∷ legs) h = h

close_trade-EndedByLegs :
    (t : Trade) (pnl roi : Decimal) (touched : List ℕ)
    → all_filled t.legs ≡ true
    → EndedByLegs (close_trade t all_tp pnl roi touched)
unfolding close_trade
close_trade-EndedByLegs t pnl roi touched h = record {
  ended = close_trade-Ended t all_tp pnl roi touched;
  reason = refl;
  every_leg_filled = all-filled t.legs (all_filled-all t.legs h);
}

module _ (E : Exchange) where
  close_all_tp-EndedByLegs :
      (event : FillEvent) (t : Trade) (k : ℕ) (w : World E)
      → all_filled t.legs ≡ true
      → Gives (Fits EndedByLegs) (close_all_tp E event t k w)
  unfolding close_all_tp
  close_all_tp-EndedByLegs event t k w h =
      resume-Gives {0, 0} (λ _. Unit) (Fits EndedByLegs) _
        (lift
          (realized_pnl_for_close event.realized_pnl t
            (price_at k (positive_price event.last_filled_price)) none)
          (cancel_algo E t.sl_order_id w))
        (any-Gives _)
        λ pnl _ v.
          resume-Gives {0, 0} (λ _. Unit) (Fits EndedByLegs) _ (lift (roi_from_pnl t pnl) v)
            (any-Gives _) λ roi _ u. close_trade-EndedByLegs t pnl roi _ h

  move_to_break_even-open :
      (t : Trade) (w : World E) → Gives (Fits EndedByLegs) (move_to_break_even E t w)
  unfolding move_to_break_even
  move_to_break_even-open t w =
      if-holds (λ (m : Action (World E) Outcome). Gives (Fits EndedByLegs) (m w))
        (le (remaining_qty t) (of_ℕ 0)) _ _ (λ _. tt)
        λ _.
          resume-Gives {0, 0} (λ _. Unit) (Fits EndedByLegs) _ (lift (entry_price t) w)
            (any-Gives _)
            λ entry _ u.
              resume-Gives {0, 0} (λ _. Unit) (Fits EndedByLegs) _
                (lift (client_order_id t.id Purpose.be_sl none) u) (any-Gives _) λ be_id _ v. tt

  handle_leg_fill-Gives :
      (event : FillEvent) (move : Bool) (trade : Trade) (leg : TradeLeg) (w : World E)
      → Gives (Fits EndedByLegs) (handle_leg_fill E event move trade leg w)
  unfolding handle_leg_fill
  handle_leg_fill-Gives event move trade leg w =
      if-holds Fitting (is_closed E trade.status || is_filled leg.status) _ _ (λ _. tt)
        λ _.
          resume-Gives {0, 0} (λ _. Unit) (Fits EndedByLegs) _
            (lift (mark_leg_filled trade leg.leg_index) w) (any-Gives _)
            λ t _ v.
              if-holds (λ (m : Action (World E) Outcome). Gives (Fits EndedByLegs) (m v))
                (all_filled t.legs) _ _ (λ h. close_all_tp-EndedByLegs event t leg.leg_index v h)
                λ _.
                  if-holds (λ (m : Action (World E) Outcome). Gives (Fits EndedByLegs) (m v))
                    (move && leg.leg_index == 1) _ _ (λ _. move_to_break_even-open t v) λ _. tt
    where
      Fitting : Action (World E) Outcome → Type 0
      Fitting m = Gives (Fits EndedByLegs) (m w)

  -- Where the fill of a leg closes the trade, every leg of it is filled, and the trade is closed
  -- for that reason, with a realized profit or loss and the touched targets in increasing order.
  pub handle_leg_fill-EndedByLegs :
      (event : FillEvent) (move : Bool) (trade t : Trade) (leg : TradeLeg) (w w' : World E)
      → handle_leg_fill E event move trade leg w ≡ (ok (closed, t), w')
      → EndedByLegs t
  handle_leg_fill-EndedByLegs event move trade t leg w w' e =
      subst (Gives (Fits EndedByLegs)) e (handle_leg_fill-Gives event move trade leg w)
