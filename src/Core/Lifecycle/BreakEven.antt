-- ===== src/Core/Lifecycle/BreakEven.antt =====
-- services/core_engine/lifecycle.py: what is canceled while the stop loss moves, and when.
use mrrik_ai_bot.Prelude.{
  ◌≡◌, ◌≢◌, refl, sym, ap, ◌∙◌, [], ◌∷◌, some-injective, true≢false, if◌then◌else◌, ◌⊎◌, inl, inr,
  Bool, true, false, Option, none, some,
}
use mrrik_ai_bot.Prelude.Text.{Text, text_eq, text_eq_sound, text_eq_refl}
use mrrik_ai_bot.Decimal.{Decimal}
use mrrik_ai_bot.Exchange.{Exchange, World, Call, call, cancel_algo_order, place_stop_market}
use mrrik_ai_bot.Exchange.Trace.{Adds, Adds-refl, Adds-trans, call-Adds}
use mrrik_ai_bot.Core.Orders.{retry_delays, place_with_retry}
use mrrik_ai_bot.Core.Orders.Protective.{
  Protecting, Listed, confirm-Adds, confirm_open_order-Listed, place_with_retry-Adds,
}
use mrrik_ai_bot.Core.Trades.{Trade, set_trade_sl_order}
use mrrik_ai_bot.Core.Lifecycle.{
  cancel_algo, replaced_stop, stop_request, confirm_if, replace_stop, place_break_even,
}

not-text_eq→≢ : (a b : Text) → text_eq a b ≡ false → a ≢ b
not-text_eq→≢ a b h e = true≢false (sym (text_eq_refl a) ∙ ap (λ c. text_eq a c) e ∙ h)

-- Canceling the stop that the trade had, which is another one than the new stop.
pub data CancelsOld (trade : Trade) (be_id : Text) : Call → Type 0 where
  old_stop :
      (old : Text)
      → trade.sl_order_id ≡ some old
      → old ≢ be_id
      → CancelsOld trade be_id (cancel_algo_order old)

module _ (E : Exchange) where
  -- The new stop was listed before anything was canceled, then only the old stop was canceled, and
  -- it was canceled where there is one under another id.
  pub record Replaced (trade : Trade) (be_id : Text) (w : World E) (p : Trade × World E)
      : Type 0 where
    pub listed_at : World E
    pub before : Adds E Protecting w listed_at
    pub listed : Listed E trade.symbol be_id listed_at
    pub after : Adds E (CancelsOld trade be_id) listed_at p.1
    pub old_canceled :
        (old : Text)
        → trade.sl_order_id ≡ some old
        → old ≢ []
        → old ≢ be_id
        → p.1.calls ≡ cancel_algo_order old ∷ listed_at.calls
    pub stop_moved : p.0 ≡ set_trade_sl_order trade be_id

  -- Nothing was canceled, and the trade keeps its stop.
  pub record Kept (trade : Trade) (w : World E) (p : Trade × World E) : Type 0 where
    pub nothing_canceled : Adds E Protecting w p.1
    pub stop_kept : p.0 ≡ trade

  call-history : (c : Call) (w : World E) → (call E c w).1.calls ≡ c ∷ w.calls
  unfolding call
  call-history c w = refl

  -- What is canceled once the new stop is confirmed.
  record Canceled (sl_id : Option Text) (trade : Trade) (be_id : Text) (v w : World E)
      : Type 0 where
    after : Adds E (CancelsOld trade be_id) v w
    old_canceled :
        (old : Text)
        → sl_id ≡ some old
        → old ≢ []
        → old ≢ be_id
        → w.calls ≡ cancel_algo_order old ∷ v.calls

  cancel-Canceled :
      (sl_id : Option Text) (trade : Trade) (be_id : Text) (w : World E)
      → trade.sl_order_id ≡ sl_id
      → Canceled sl_id trade be_id w (cancel_algo E (replaced_stop E sl_id be_id) w)
  cancel-Canceled none trade be_id w e = record {
    after = Adds-refl E _ w;
    old_canceled = λ old s. cc;
  }
  cancel-Canceled (some []) trade be_id w e = record {
    after = Adds-refl E _ w;
    old_canceled = λ old s full. absurd (full (sym (some-injective s)));
  }
  cancel-Canceled (some (c ∷ cs)) trade be_id w e = go (text_eq (c ∷ cs) be_id) refl
    where
      go :
          (b : Bool)
          → text_eq (c ∷ cs) be_id ≡ b
          → Canceled
              (some (c ∷ cs))
              trade
              be_id
              w
              (cancel_algo E (if b then none else some (c ∷ cs)) w)
      go true same = record {
        after = Adds-refl E _ w;
        old_canceled =
            λ old s _ other. absurd (other (sym (some-injective s) ∙ text_eq_sound _ _ same));
      }
      go false same = record {
        after =
            call-Adds E _ (cancel_algo_order (c ∷ cs)) w
              (old_stop (c ∷ cs) e (not-text_eq→≢ (c ∷ cs) be_id same));
        old_canceled = λ old s _ _.
            call-history (cancel_algo_order (c ∷ cs)) w
            ∙ ap (λ id. cancel_algo_order id ∷ w.calls) (some-injective s);
      }

  replace_stop-moved :
      (trade : Trade) (be_id : Text) (w : World E) (o : Bool × World E)
      → Adds E Protecting w o.1
      → (o.0 ≡ true → Listed E trade.symbol be_id o.1)
      → Replaced trade be_id w (replace_stop E o.0 trade be_id o.1)
        ⊎ Kept trade w (replace_stop E o.0 trade be_id o.1)
  replace_stop-moved trade be_id w (false, v) h k =
      inr (record { nothing_canceled = h; stop_kept = refl })
  replace_stop-moved trade be_id w (true, v) h k =
      let canceled = cancel-Canceled trade.sl_order_id trade be_id v refl in
      inl (record {
        listed_at = v;
        before = h;
        listed = k refl;
        after = canceled.after;
        old_canceled = canceled.old_canceled;
        stop_moved = refl;
      })

  confirm_if-Adds :
      (placed : Bool) (trade : Trade) (id : Text) (w : World E)
      → Adds E Protecting w (confirm_if E placed trade id w).1
  confirm_if-Adds false trade id w = Adds-refl E Protecting w
  confirm_if-Adds true trade id w = confirm-Adds E trade.symbol id retry_delays w

  confirm_if-Listed :
      (placed : Bool) (trade : Trade) (id : Text) (w : World E)
      → (confirm_if E placed trade id w).0 ≡ true
      → Listed E trade.symbol id (confirm_if E placed trade id w).1
  confirm_if-Listed false trade id w e = cc
  confirm_if-Listed true trade id w e = confirm_open_order-Listed E trade.symbol id retry_delays w e

  -- When the stop of a trade moves to break-even, there are two cases. Either the exchange has
  -- listed the new stop before any cancel is sent; then the stop that the trade had is canceled, if
  -- its id is not empty and not that of the new one, no cancel of another order is sent, and the
  -- trade names the new stop. Or no cancel is sent, and the trade keeps the stop that it had.
  pub place_break_even-moved :
      (trade : Trade) (remaining : Decimal) (be_id : Text) (w : World E)
      → Replaced trade be_id w (place_break_even E trade remaining be_id w)
        ⊎ Kept trade w (place_break_even E trade remaining be_id w)
  unfolding place_break_even
  place_break_even-moved trade remaining be_id w =
      let order = place_stop_market (stop_request E trade be_id) remaining trade.entry in
      let (placed, w1) = place_with_retry E order retry_delays w in
      replace_stop-moved trade be_id w (confirm_if E placed trade be_id w1)
        (Adds-trans E Protecting w w1 _
          (place_with_retry-Adds E Protecting order retry_delays w (Protecting.stop _ _ _))
          (confirm_if-Adds placed trade be_id w1))
        (confirm_if-Listed placed trade be_id w1)
