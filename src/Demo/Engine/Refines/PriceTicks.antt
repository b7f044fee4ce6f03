-- ===== src/Demo/Engine/Refines/PriceTicks.antt =====
-- services/demo_engine/engine.py: `handle_mark_price` makes allowed moves.
use mrrik_ai_bot.Prelude.{
  ℕ, ◌≡◌, refl, sym, ◌∙◌, ap, subst, List, [], ◌∷◌, Option, none, some, Result, ok, err, All,
}
use mrrik_ai_bot.Prelude.Text.{Text, upper}
use mrrik_ai_bot.Decimal.{Decimal}
use mrrik_ai_bot.Exchange.Action.{Keeps, lift, pure, Steps, >>=-Steps, >>=-at}
use mrrik_ai_bot.Demo.TradeLogic.{Closure, evaluate_price_tick}
use mrrik_ai_bot.Demo.Store.{
  DemoAccount, DemoTrade, Store, Signal, find_trade, closed_trade, get_or_create_demo_account,
  find_account, list_open_demo_trades_by_symbol,
}
use mrrik_ai_bot.Demo.Store.Frames.{find_trade-id, find_trade-other}
use mrrik_ai_bot.Demo.Store.Frozen.{IsStore}
use mrrik_ai_bot.Demo.Store.Listing.{
  Distinct, list_open_demo_trades-Open, list_open_demo_trades-Distinct,
}
use mrrik_ai_bot.Demo.Store.Moves.{
  Reach, stay, OpenTradeOf, close_demo_trade-Reach, close_demo_trade-Settled,
}
use mrrik_ai_bot.Demo.Engine.{
  DemoEngineConfig, Rows, Bus, World, publish, notify, stored, change, demo_closed,
  format_demo_close_message, trade_object, try_change,
}
use mrrik_ai_bot.Demo.Engine.Prices.{
  account_of, object_or, announce, closing, close_and_announce, after_decision, tick_trade,
  tick_known, notify_closed, publish_closed, tick_one, tick_all, open_trade_of, signal_of,
  tick_listed, handle_mark_price,
}
use mrrik_ai_bot.Demo.Engine.Refines.{
  Ticked, Ticked-refl, Ticked-trans, Ticked-same, notify-same, publish-same, trade_object-found,
  trade_object-Ticked, found_after, get_or_create-Ticked, Moved, Moved-trans, fills-Ticked,
  still_open,
}

module _ (config : DemoEngineConfig) (rows : Rows) (bus : Bus) where
  account_of-Ticked :
      (i : ℕ) (listed : List DemoAccount) (u : ℕ) (w : World)
      → Ticked i w (record w { store = (account_of config rows bus listed u w.store).1 })
  unfolding account_of
  account_of-Ticked i listed u w =
      elim (find_account u listed)
        as (λ o. Ticked i w (record w {
          store =
              (elim o as (λ _. DemoAccount × Store) [
                | some account ↦ (object_or account (find_account u w.store.accounts), w.store)
                | none ↦ get_or_create_demo_account u config.start_balance_usdt w.store
              ]).1;
        })) [
          | some account ↦ Ticked-refl i w
          | none ↦ get_or_create-Ticked i u config.start_balance_usdt w
        ]

  -- What follows once the tables have the closed trade.
  announce-Ticked :
      (listed : List DemoAccount) (i u : ℕ) → Steps (Ticked i) (announce config rows bus listed i u)
  unfolding announce publish_closed notify_closed
  announce-Ticked listed i u =
      >>=-Steps (Ticked-trans i) (trade_object i) (trade_object-Ticked i i) λ t.
        >>=-Steps (Ticked-trans i) (change (account_of config rows bus listed u))
          (account_of-Ticked i listed u)
          λ account.
            >>=-Steps (Ticked-trans i) (publish bus (demo_closed t account))
              (λ w. Ticked-same i w _ (publish-same bus _ w))
              λ _.
                >>=-Steps (Ticked-trans i) (lift (format_demo_close_message t)) (Ticked-refl i) λ m.
                  >>=-Steps (Ticked-trans i) (notify bus (rows.telegram_id u) m) {k = λ _. pure 1}
                    (λ w. Ticked-same i w _ (notify-same bus _ m w))
                    λ _. record { at = Ticked-refl i }

  close-Ticked :
      (i : ℕ) (t : DemoTrade) (c : Closure) (touched : List ℕ) (w : World)
      → find_trade i w.store.trades ≡ some t
      → Ticked i w (try_change (closing t c touched) w).1
  unfolding closed_trade
  close-Ticked i t c touched w found = go (closing t c touched w.store) refl
    where
      go : (r : Result Store) → closing t c touched w.store ≡ r → Ticked i w (stored w r).1
      go (err e) h = Ticked-refl i w
      go (ok s) h =
          let at = find_trade-id i w.store.trades t found in
          let d = close_demo_trade-Settled t _ _ _ touched w.store s h in
          record {
            moves =
                close_demo_trade-Reach t _ _ _ touched w.store s
                  (subst (λ k. find_trade k w.store.trades ≡ some t) (sym at) found) h;
            others = λ j ne.
                ap (λ (x : Store). find_trade j x.trades) d.result
                ∙ find_trade-other (closed_trade c.closed_reason _ _ touched) (λ _. refl) t.id j
                    w.store.trades (λ e. ne (sym at ∙ e));
          }

  close_and_announce-Ticked :
      (listed : List DemoAccount) (i u : ℕ) (c : Closure) (touched : List ℕ)
      → Keeps (Ticked i) (close_and_announce config rows bus listed i u c touched)
  unfolding close_and_announce
  close_and_announce-Ticked listed i u c touched w =
      >>=-at (Ticked i) (Ticked-trans i) (trade_object i) _ w (trade_object-Ticked i i w) λ t v e h.
        >>=-at (Ticked i) (Ticked-trans i) (try_change (closing t c touched))
          (λ _. announce config rows bus listed i u) v
          (close-Ticked i t c touched v (found_after i w v t e))
          λ _ x _ _. (announce-Ticked listed i u).at x

  after_decision-Ticked :
      (listed : List DemoAccount) (i u : ℕ) (c : Option Closure) (touched : List ℕ)
      → Keeps (Ticked i) (after_decision config rows bus listed i u c touched)
  after_decision-Ticked listed i u none touched = Ticked-refl i
  after_decision-Ticked listed i u (some c) touched = close_and_announce-Ticked listed i u c touched

  tick_trade-Ticked :
      (price : Decimal) (listed : List DemoAccount) (t : DemoTrade) (signal : Signal)
      (liq_price : Decimal) (u : ℕ) (w : World)
      → OpenTradeOf t.id w.store
      → Ticked t.id w (tick_trade config rows bus price listed t signal liq_price u w).1
  unfolding tick_trade
  tick_trade-Ticked price listed t signal liq_price u w opened =
      >>=-at (Ticked t.id) (Ticked-trans t.id)
        (lift
          (evaluate_price_tick (open_trade_of config (rows.settings u) t signal liq_price) price))
        _ w (Ticked-refl t.id w)
        λ d v e h.
          Ticked-trans t.id v _ _
            (fills-Ticked t.id d.filled_leg_indices v
              (subst (λ (x : World). OpenTradeOf t.id x.store) (ap (λ o. o.1) e) opened))
            (after_decision-Ticked listed t.id u d.closure d.touched_tps _)

  tick_known-Ticked :
      (price : Decimal) (listed : List DemoAccount) (t : DemoTrade) (signal : Option Signal)
      (liq_price : Option Decimal) (u : Option ℕ) (w : World)
      → OpenTradeOf t.id w.store
      → Ticked t.id w (tick_known config rows bus price listed t signal liq_price u w).1
  tick_known-Ticked price listed t none liq_price u w opened = Ticked-refl t.id w
  tick_known-Ticked price listed t (some signal) none u w opened = Ticked-refl t.id w
  tick_known-Ticked price listed t (some signal) (some liq_price) none w opened = Ticked-refl t.id w
  tick_known-Ticked price listed t (some signal) (some liq_price) (some u) w opened =
      tick_trade-Ticked price listed t signal liq_price u w opened

  tick_one-Ticked :
      (price : Decimal) (listed : List DemoAccount) (i : ℕ) (w : World)
      → OpenTradeOf i w.store
      → Ticked i w (tick_one config rows bus price listed i w).1
  unfolding tick_one
  tick_one-Ticked price listed i w opened =
      >>=-at (Ticked i) (Ticked-trans i) (trade_object i) _ w (trade_object-Ticked i i w) λ t v e h.
        let (found, same) = trade_object-found i w v t e in
        let at = find_trade-id i w.store.trades t found in
        subst
          (λ k.
            Ticked k v
              (tick_known config rows bus price listed t (signal_of config rows bus t.signal_id)
                t.liq_price t.user_id v).1)
          at
          (tick_known-Ticked price listed t _ t.liq_price t.user_id v (
            subst (λ k. OpenTradeOf k v.store) (sym at)
              (subst (λ (x : World). OpenTradeOf i x.store) (sym same) opened)))

  -- The trades of the loop stay open until their round.
  tick_all-Reach :
      (price : Decimal) (listed : List DemoAccount) (trades : List ℕ) (w : World)
      → All (λ i. OpenTradeOf i w.store) trades
      → Distinct trades
      → Reach w.store (tick_all config rows bus price listed trades w).1.store
  unfolding tick_all
  tick_all-Reach price listed [] w opened distinct = stay
  tick_all-Reach price listed (i ∷ trades) w opened distinct =
      let round = tick_one-Ticked price listed i w opened.0 in
      >>=-at Moved Moved-trans (tick_one config rows bus price listed i) _ w round.moves λ n v e h.
        >>=-at Moved Moved-trans (tick_all config rows bus price listed trades) _ v
          (tick_all-Reach price listed trades v
            (still_open i w v trades (subst (Ticked i w) (ap (λ o. o.1) e) round) distinct.0
              opened.1)
            distinct.1)
          λ _ x _ _. stay

  pub handle_mark_price-Reach :
      (symbol : Text) (price : Decimal) (w : World)
      → IsStore w.store
      → Reach w.store (handle_mark_price config rows bus symbol price w).1.store
  unfolding handle_mark_price
  handle_mark_price-Reach symbol price w h =
      go (list_open_demo_trades_by_symbol (upper symbol) w.store)
        (list_open_demo_trades-Open (upper symbol) w.store h)
        (list_open_demo_trades-Distinct (upper symbol) w.store h)
    where
      go :
          (trades : List ℕ)
          → All (λ i. OpenTradeOf i w.store) trades
          → Distinct trades
          → Reach w.store (tick_listed config rows bus price w.store.accounts trades w).1.store
      go [] opened distinct = stay
      go (i ∷ trades) opened distinct =
          >>=-at Moved Moved-trans (tick_all config rows bus price w.store.accounts (i ∷ trades)) _
            w (tick_all-Reach price w.store.accounts (i ∷ trades) w opened distinct) λ _ x _ _. stay
