-- ===== src/Demo/Engine/Announced/Ticks.antt =====
-- services/demo_engine/engine.py: what a whole tick announces accounts for the balances.
use mrrik_ai_bot.Prelude.{ℕ, ◌+◌, ◌≡◌, refl, sym, ap, subst, List, [], ◌∷◌, Option, none, some, ok}
use mrrik_ai_bot.Prelude.Text.{Text, upper}
use mrrik_ai_bot.Decimal.{Decimal}
use mrrik_ai_bot.Exchange.Action.{lift, pure, ◌>>=◌, ◌>>◌, >>=-ok}
use mrrik_ai_bot.Demo.TradeLogic.{evaluate_price_tick}
use mrrik_ai_bot.Demo.Store.{
  DemoAccount, DemoTrade, Store, Signal, find_trade, fill_legs, mark_demo_legs_filled,
  list_open_demo_trades_by_symbol,
}
use mrrik_ai_bot.Demo.Store.Frames.{find_trade-id, find_trade-updated}
use mrrik_ai_bot.Demo.Engine.{
  DemoEngineConfig, Rows, Bus, World, DemoHandleResult, processed, change, trade_object,
}
use mrrik_ai_bot.Demo.Engine.Prices.{
  after_decision, open_trade_of, tick_trade, signal_of, tick_known, tick_one, tick_all, tick_listed,
  handle_mark_price,
}
use mrrik_ai_bot.Demo.Engine.Refines.{trade_object-found}
use mrrik_ai_bot.Demo.Engine.Announced.{Accounted, Accounted-same, Accounted-trans}
use mrrik_ai_bot.Demo.Engine.Announced.Closing.{after_decision-ok}

-- A trade stays with its user while its legs are filled.
filled-user :
    (i u : ℕ) (ks : List ℕ) (t : DemoTrade) (s : Store)
    → find_trade i s.trades ≡ some t
    → t.user_id ≡ some u
    → (t' : DemoTrade) × (find_trade i (mark_demo_legs_filled i ks s).trades ≡ some t')
      × (t'.user_id ≡ some u)
unfolding mark_demo_legs_filled fill_legs
filled-user i u [] t s at of_user = (t, at, of_user)
filled-user i u (k ∷ ks) t s at of_user =
    (_, find_trade-updated (fill_legs (k ∷ ks)) (λ _. refl) i s.trades t at, of_user)

filled-accounts :
    (i : ℕ) (ks : List ℕ) (s : Store) → (mark_demo_legs_filled i ks s).accounts ≡ s.accounts
unfolding mark_demo_legs_filled
filled-accounts i [] s = refl
filled-accounts i (k ∷ ks) s = refl

module _ (config : DemoEngineConfig) (rows : Rows) (bus : Bus) where
  tick_trade-ok :
      (price : Decimal) (listed : List DemoAccount) (t : DemoTrade) (signal : Signal)
      (liq_price : Decimal) (u n : ℕ) (w v : World)
      → find_trade t.id w.store.trades ≡ some t
      → t.user_id ≡ some u
      → tick_trade config rows bus price listed t signal liq_price u w ≡ (ok n, v)
      → Accounted w v
  unfolding tick_trade
  tick_trade-ok price listed t signal liq_price u n w v at of_user e =
      let evaluated =
        evaluate_price_tick (open_trade_of config (rows.settings u) t signal liq_price) price in
      let (d, w1, e1, k1) =
        >>=-ok (lift evaluated)
          (λ d.
            change (λ s. (tt, mark_demo_legs_filled t.id d.filled_leg_indices s))
            >> after_decision config rows bus listed t.id u d.closure d.touched_tps)
          w n v e in
      let (t', at', of_user') =
        filled-user t.id u d.filled_leg_indices t w1.store
          (subst (λ (x : World). find_trade t.id x.store.trades ≡ some t) (ap (λ o. o.1) e1) at)
          of_user in
      let w2 = record w1 { store = mark_demo_legs_filled t.id d.filled_leg_indices w1.store } in
      let rest =
        after_decision-ok config rows bus listed t.id u n d.closure d.touched_tps t' w2 v at'
          of_user' k1 in
      subst (λ x. Accounted x v) (sym (ap (λ o. o.1) e1))
        (Accounted-trans w1 w2 v
          (Accounted-same w1 w2 refl (filled-accounts t.id d.filled_leg_indices w1.store)) rest)

  tick_known-ok :
      (price : Decimal) (listed : List DemoAccount) (t : DemoTrade) (signal : Option Signal)
      (liq_price : Option Decimal) (user : Option ℕ) (n : ℕ) (w v : World)
      → find_trade t.id w.store.trades ≡ some t
      → t.user_id ≡ user
      → tick_known config rows bus price listed t signal liq_price user w ≡ (ok n, v)
      → Accounted w v
  tick_known-ok price listed t none liq_price user n w v at of_user e =
      subst (Accounted w) (ap (λ o. o.1) e) (Accounted-same w w refl refl)
  tick_known-ok price listed t (some signal) none user n w v at of_user e =
      subst (Accounted w) (ap (λ o. o.1) e) (Accounted-same w w refl refl)
  tick_known-ok price listed t (some signal) (some liq_price) none n w v at of_user e =
      subst (Accounted w) (ap (λ o. o.1) e) (Accounted-same w w refl refl)
  tick_known-ok price listed t (some signal) (some liq_price) (some u) n w v at of_user e =
      tick_trade-ok price listed t signal liq_price u n w v at of_user e

  tick_one-ok :
      (price : Decimal) (listed : List DemoAccount) (i n : ℕ) (w v : World)
      → tick_one config rows bus price listed i w ≡ (ok n, v)
      → Accounted w v
  unfolding tick_one
  tick_one-ok price listed i n w v e =
      let (t, w1, e1, k1) =
        >>=-ok (trade_object i)
          (λ t.
            tick_known config rows bus price listed t (signal_of config rows bus t.signal_id)
              t.liq_price t.user_id)
          w n v e in
      let (found, same) = trade_object-found i w w1 t e1 in
      let at = find_trade-id i w.store.trades t found in
      let found1 = subst (λ (x : World). find_trade i x.store.trades ≡ some t) (sym same) found in
      subst (λ x. Accounted x v) same
        (tick_known-ok price listed t _ t.liq_price t.user_id n w1 v
          (subst (λ k. find_trade k w1.store.trades ≡ some t) (sym at) found1) refl k1)

  tick_all-ok :
      (price : Decimal) (listed : List DemoAccount) (trades : List ℕ) (n : ℕ) (w v : World)
      → tick_all config rows bus price listed trades w ≡ (ok n, v)
      → Accounted w v
  unfolding tick_all
  tick_all-ok price listed [] n w v e =
      subst (Accounted w) (ap (λ o. o.1) e) (Accounted-same w w refl refl)
  tick_all-ok price listed (i ∷ trades) n w v e =
      let (now_closed, w1, e1, k1) =
        >>=-ok (tick_one config rows bus price listed i)
          (λ m. tick_all config rows bus price listed trades >>= λ k. pure (m + k)) w n v e in
      let (later, w2, e2, k2) =
        >>=-ok (tick_all config rows bus price listed trades) (λ k. pure (now_closed + k)) w1 n v
          k1 in
      Accounted-trans w w1 v (tick_one-ok price listed i now_closed w w1 e1)
        (subst (Accounted w1) (ap (λ o. o.1) k2) (tick_all-ok price listed trades later w1 w2 e2))

  -- When a tick of `handle_mark_price` returns, the balance of every user is the one before the tick
  -- with, one after the other, the realized profits added that the `demo.closed` events published
  -- meanwhile announce for that user: nothing is booked without being announced, nothing is
  -- announced without being booked, and a user without an account gets none.
  pub handle_mark_price-Accounted :
      (symbol : Text) (price : Decimal) (w v : World) (result : DemoHandleResult)
      → handle_mark_price config rows bus symbol price w ≡ (ok result, v)
      → Accounted w v
  unfolding handle_mark_price
  handle_mark_price-Accounted symbol price w v result =
      go (list_open_demo_trades_by_symbol (upper symbol) w.store)
    where
      go :
          (trades : List ℕ)
          → tick_listed config rows bus price w.store.accounts trades w ≡ (ok result, v)
          → Accounted w v
      go [] e = subst (Accounted w) (ap (λ o. o.1) e) (Accounted-same w w refl refl)
      go (i ∷ trades) e =
          let (n, w1, e1, k1) =
            >>=-ok (tick_all config rows bus price w.store.accounts (i ∷ trades))
              (λ n. pure (processed n)) w result v e in
          subst (Accounted w) (ap (λ o. o.1) k1)
            (tick_all-ok price w.store.accounts (i ∷ trades) n w w1 e1)
