-- ===== src/Core/Lifecycle/Stopped.antt =====
-- services/core_engine/lifecycle.py: how the fill of the stop loss closes a trade.
use mrrik_ai_bot.Prelude.{
  ◌≡◌, ◌≢◌, refl, sym, ap, ◌∙◌, subst, ◌⊎◌, inl, inr, Bool, true, false, ◌||◌, Option, none, some,
  some-injective, Result, ok, err, ok-injective, true≢false, if◌then◌else◌, if-holds,
}
use mrrik_ai_bot.Prelude.Text.{Text, text_eq, text_eq_sound, text_eq_refl}
use mrrik_ai_bot.Decimal.{Decimal, of_ℕ, eq, lt}
use mrrik_ai_bot.Exchange.{Exchange, World}
use mrrik_ai_bot.Exchange.Action.{Action, lift, Gives, resume-Gives, any-Gives}
use mrrik_ai_bot.Core.Ids.{Purpose, client_order_id}
use mrrik_ai_bot.Core.Trades.{Trade, be, sl, close_trade}
use mrrik_ai_bot.Core.Lifecycle.{
  FillEvent, Outcome, closed, blended_pnl, entry_price, roi_from_pnl, realized_pnl_for_close,
  positive_price, handle_stop_fill, is_closed, cancel_open_tps, stop_price,
}
use mrrik_ai_bot.Core.Lifecycle.Closing.{Ended, Fits, close_trade-Ended}

-- The price at which the stop left the position: that of the fill where it is positive, or else the
-- stop loss of the signal.
pub record LeftAt (event : FillEvent) (trade : Trade) (price : Decimal) : Type 0 where
  pub filled : (p : Decimal) → event.last_filled_price ≡ some p → lt (of_ℕ 0) p ≡ true → price ≡ p
  pub not_filled :
      ((p : Decimal) → event.last_filled_price ≡ some p → lt (of_ℕ 0) p ≡ false)
      → price ≡ trade.stop_loss

-- A trade that its stop closes: at break-even exactly where the order is the break-even stop or the
-- price is that of the entry, and with the profit of the event where it has one.
pub record EndedByStop (event : FillEvent) (trade t : Trade) : Type 0 where
  pub ended : Ended t
  pub be_id : Text
  pub is_break_even_id : client_order_id trade.id Purpose.be_sl none ≡ ok be_id
  pub price : Decimal
  pub left_at : LeftAt event trade price
  pub break_even :
      (event.client_order_id ≡ be_id) ⊎ (eq price trade.entry ≡ true) → t.closed_reason ≡ some be
  pub stopped :
      event.client_order_id ≢ be_id → eq price trade.entry ≡ false → t.closed_reason ≡ some sl
  pub reported : (pnl : Decimal) → event.realized_pnl ≡ some pnl → t.realized_pnl_usdt ≡ some pnl
  pub worked_out :
      event.realized_pnl ≡ none
      → (pnl : Decimal) × (blended_pnl trade none (some price) ≡ ok pnl)
        × (t.realized_pnl_usdt ≡ some pnl)

lift-Gives : {W A : Type 0} (r : Result A) (w : W) → Gives (λ a. r ≡ ok a) (lift r w)
lift-Gives (ok a) w = refl
lift-Gives (err e) w = tt

module _ (E : Exchange) (event : FillEvent) (trade : Trade) where
  abbrev price_of : Option Decimal → Decimal
  price_of p = stop_price E (positive_price p) trade.stop_loss

  price-LeftAt :
      (p : Option Decimal) → event.last_filled_price ≡ p → LeftAt event trade (price_of p)
  price-LeftAt none e = record { filled = λ q f. cc; not_filled = λ _. refl }
  price-LeftAt (some p) e = go (lt (of_ℕ 0) p) refl
    where
      go :
          (b : Bool)
          → lt (of_ℕ 0) p ≡ b
          → LeftAt event trade (stop_price E (if b then some p else none) trade.stop_loss)
      go true l = record {
        filled = λ q f _. some-injective (sym e ∙ f);
        not_filled = λ never. absurd (true≢false (sym l ∙ never p e));
      }
      go false l = record {
        filled = λ q f positive. absurd (
            true≢false
              (sym positive ∙ (ap (λ d. lt (of_ℕ 0) d) (sym (some-injective (sym e ∙ f))) ∙ l)));
        not_filled = λ _. refl;
      }

  break_even-reason :
      (id be_id : Text) (at_entry : Bool)
      → (id ≡ be_id) ⊎ (at_entry ≡ true)
      → (if text_eq id be_id || at_entry then be else sl) ≡ be
  break_even-reason id be_id at_entry (inl e) =
      ap (λ b. if b || at_entry then be else sl) (sym (ap (λ x. text_eq id x) e) ∙ text_eq_refl id)
  break_even-reason id be_id at_entry (inr e) = go (text_eq id be_id)
    where
      go : (b : Bool) → (if b || at_entry then be else sl) ≡ be
      go true = refl
      go false = ap (λ c. if c then be else sl) e

  stopped-reason :
      (id be_id : Text) (at_entry : Bool)
      → id ≢ be_id
      → at_entry ≡ false
      → (if text_eq id be_id || at_entry then be else sl) ≡ sl
  stopped-reason id be_id at_entry other e = go (text_eq id be_id) refl
    where
      go : (b : Bool) → text_eq id be_id ≡ b → (if b || at_entry then be else sl) ≡ sl
      go true same = absurd (other (text_eq_sound id be_id same))
      go false _ = ap (λ c. if c then be else sl) e

  close_trade-EndedByStop :
      (be_id : Text) (pnl roi : Decimal)
      → client_order_id trade.id Purpose.be_sl none ≡ ok be_id
      → let price = price_of event.last_filled_price in
        realized_pnl_for_close event.realized_pnl trade none (some price) ≡ ok pnl
        → EndedByStop event trade (
            close_trade trade
              (if text_eq event.client_order_id be_id || eq price trade.entry then be else sl)
              pnl
              roi
              trade.touched_tps)
  unfolding close_trade
  close_trade-EndedByStop be_id pnl roi named made =
      let price = price_of event.last_filled_price in
      record {
        ended = close_trade-Ended trade _ pnl roi trade.touched_tps;
        be_id = be_id;
        is_break_even_id = named;
        price = price;
        left_at = price-LeftAt event.last_filled_price refl;
        break_even = λ h. ap some (break_even-reason event.client_order_id be_id _ h);
        stopped = λ other e. ap some (stopped-reason event.client_order_id be_id _ other e);
        reported = λ p given. ap some (
            sym (
              ok-injective (
                subst (λ r. realized_pnl_for_close r trade none (some price) ≡ ok pnl) given
                  made)));
        worked_out = λ given. (
          pnl,
          subst (λ r. realized_pnl_for_close r trade none (some price) ≡ ok pnl) given made,
          refl,
        );
      }

  handle_stop_fill-Gives :
      (w : World E) → Gives (Fits (EndedByStop event trade)) (handle_stop_fill E event trade w)
  unfolding handle_stop_fill
  handle_stop_fill-Gives w =
      if-holds (λ (m : Action (World E) Outcome). Gives (Fits Stop) (m w))
        (is_closed E trade.status) _ _ (λ _. tt)
        λ _.
          resume-Gives {0, 0} (λ _. Unit) (Fits Stop) _
            (lift (entry_price trade) (cancel_open_tps E trade.legs w)) (any-Gives _)
            λ entry _ u.
              resume-Gives {0, 0} (λ id. client_order_id trade.id Purpose.be_sl none ≡ ok id)
                (Fits Stop) _ (lift (client_order_id trade.id Purpose.be_sl none) u)
                (lift-Gives _ u)
                λ be_id named v.
                  resume-Gives {0, 0} (λ pnl. pnl_of ≡ ok pnl) (Fits Stop) _ (lift pnl_of v)
                    (lift-Gives pnl_of v)
                    λ pnl made x.
                      resume-Gives {0, 0} (λ _. Unit) (Fits Stop) _
                        (lift (roi_from_pnl trade pnl) x) (any-Gives _)
                        λ roi _ y. close_trade-EndedByStop be_id pnl roi named made
    where
      Stop : Trade → Type 0
      Stop = EndedByStop event trade

      pnl_of : Result Decimal
      pnl_of =
          realized_pnl_for_close event.realized_pnl trade none
            (some (price_of event.last_filled_price))

  -- Where the fill of the stop loss closes the trade, no leg of it is open and the touched targets
  -- are in increasing order. It is closed as break-even where the order is the break-even stop or
  -- the position was left at the entry, and as stopped anywhere else; the position was left at the
  -- price of the fill where that is positive, and at the stop loss of the signal otherwise. The
  -- profit is that of the event, or where it has none the one worked out from the legs.
  pub handle_stop_fill-EndedByStop :
      (t : Trade) (w w' : World E)
      → handle_stop_fill E event trade w ≡ (ok (closed, t), w')
      → EndedByStop event trade t
  handle_stop_fill-EndedByStop t w w' e =
      subst (Gives (Fits (EndedByStop event trade))) e (handle_stop_fill-Gives w)
