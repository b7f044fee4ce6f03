-- ===== src/Demo/Engine/Announced/Closing.antt =====
-- services/demo_engine/engine.py: a tick that returns has announced every profit that it booked.
use mrrik_ai_bot.Prelude.{
  ℕ, ◌≡◌, refl, sym, ◌∙◌, ap, subst, List, [], ◌∷◌, ◌++◌, Option, none, some, ok, some-injective,
}
use mrrik_ai_bot.Exchange.Action.{lift, pure, ◌>>◌, >>=-ok}
use mrrik_ai_bot.Demo.TradeLogic.{Closure}
use mrrik_ai_bot.Demo.Store.{
  DemoAccount, DemoTrade, Store, find_account, find_trade, update_account, update_trade, credit,
  closed_trade, get_or_create_demo_account, same_key,
}
use mrrik_ai_bot.Demo.Store.Frames.{find_trade-id, find_trade-updated, find_account-updated}
use mrrik_ai_bot.Demo.Store.Moves.{close_demo_trade-Settled}
use mrrik_ai_bot.Demo.Engine.{
  DemoEngineConfig, demo_closed, Rows, Bus, World, try_change, change, publish, notify,
  trade_object, format_demo_close_message,
}
use mrrik_ai_bot.Demo.Engine.Prices.{
  object_or, closing, account_of, announce, close_and_announce, after_decision, notify_closed,
  publish_closed, announce_closed,
}
use mrrik_ai_bot.Demo.Engine.Refines.{trade_object-found}
use mrrik_ai_bot.Demo.Engine.Announced.{announced_gains, Accounted, Accounted-same, Accounted-trans}
use mrrik_ai_bot.Demo.Engine.Announced.Books.{
  publish-ok, notify-ok, try_change-ok, Books, settled-balance, get_or_create-same,
}

module _ (config : DemoEngineConfig) (rows : Rows) (bus : Bus) where
  account_of-same :
      (listed : List DemoAccount) (u : ℕ) (s : Store) (a : DemoAccount)
      → find_account u s.accounts ≡ some a
      → (account_of config rows bus listed u s).1 ≡ s
  unfolding account_of
  account_of-same listed u s a found =
      elim (find_account u listed)
        as (λ o.
          (elim o as (λ _. DemoAccount × Store) [
            | some account ↦ (object_or account (find_account u s.accounts), s)
            | none ↦ get_or_create_demo_account u config.start_balance_usdt s
          ]).1
          ≡ s) [
            | some account ↦ refl
            | none ↦ get_or_create-same u config.start_balance_usdt s a found
          ]

  -- The events of a closed trade: its closure, and perhaps a notice.
  abbrev Announces : DemoTrade → World → ℕ → World → Type 0
  Announces t w n v =
      (account : DemoAccount) × Accounted
        (record w { published = w.published ++ demo_closed t account ∷ [] }) v

  notify_closed-ok :
      (u n : ℕ) (t : DemoTrade) (w v : World)
      → notify_closed config rows bus u t w ≡ (ok n, v)
      → Accounted w v
  unfolding notify_closed
  notify_closed-ok u n t w v e =
      let (m, w1, e1, k1) =
        >>=-ok (lift (format_demo_close_message t))
          (λ m. notify bus (rows.telegram_id u) m >> pure 1) w n v e in
      let (u2, w2, e2, k2) = >>=-ok (notify bus (rows.telegram_id u) m) (λ _. pure 1) w1 n v k1 in
      subst (λ x. Accounted x v) (sym (ap (λ o. o.1) e1))
        (subst (Accounted w1) (ap (λ o. o.1) k2) (notify-ok bus (rows.telegram_id u) m w1 w2 u2 e2))

  publish_closed-ok :
      (u n : ℕ) (t : DemoTrade) (a : DemoAccount) (w v : World)
      → publish_closed config rows bus u t a w ≡ (ok n, v)
      → Accounted (record w { published = w.published ++ demo_closed t a ∷ [] }) v
  unfolding publish_closed
  publish_closed-ok u n t a w v e =
      let (u1, w1, e1, k1) =
        >>=-ok (publish bus (demo_closed t a)) (λ _. notify_closed config rows bus u t) w n v e in
      subst (λ x. Accounted x v) (publish-ok bus (demo_closed t a) w w1 u1 e1)
        (notify_closed-ok u n t w1 v k1)

  announce-ok :
      (listed : List DemoAccount) (i u n : ℕ) (t : DemoTrade) (a : DemoAccount) (w v : World)
      → find_trade i w.store.trades ≡ some t
      → find_account u w.store.accounts ≡ some a
      → announce config rows bus listed i u w ≡ (ok n, v)
      → Announces t w n v
  unfolding announce
  announce-ok listed i u n t a w v at has e =
      let (t1, w1, e1, k1) =
        >>=-ok (trade_object i) (announce_closed config rows bus listed u) w n v e in
      let (found, same) = trade_object-found i w w1 t1 e1 in
      let is_t : t1 ≡ t = some-injective (sym found ∙ at) in
      let (account, w2, e2, k2) =
        >>=-ok (change (account_of config rows bus listed u)) (publish_closed config rows bus u t1)
          w1 n v k1 in
      let is_w : w2 ≡ w =
        sym (ap (λ o. o.1) e2)
        ∙ ap (λ (x : World). record x { store = (account_of config rows bus listed u x.store).1 })
            same
        ∙ ap (λ s. record w { store = s }) (account_of-same listed u w.store a has) in
      (
        account,
        subst
            (λ y. Accounted (record w { published = w.published ++ demo_closed y account ∷ [] }) v)
            is_t
            (subst
              (λ (x : World).
                Accounted (record x { published = x.published ++ demo_closed t1 account ∷ [] }) v)
              is_w (publish_closed-ok u n t1 account w2 v k2)),
      )

  -- The closure and its event.
  closing-Accounted :
      (u : ℕ) (c : Closure) (touched : List ℕ) (t : DemoTrade) (a account : DemoAccount)
      (w v : World) (s : Store)
      → find_account u w.store.accounts ≡ some a
      → t.user_id ≡ some u
      → s.accounts ≡ update_account u (credit c.realized_pnl_usdt) w.store.accounts
      → Accounted
          (record {
            store = s;
            published =
                w.published
                ++ demo_closed
                    (closed_trade c.closed_reason c.realized_roi_pct c.realized_pnl_usdt touched t)
                    account
                  ∷ [];
          })
          v
      → Accounted w v
  unfolding announced_gains closed_trade
  closing-Accounted u c touched t a account w v s has of_user new rest =
      Accounted-trans w _ v
        (record {
          events =
              demo_closed
                (closed_trade c.closed_reason c.realized_roi_pct c.realized_pnl_usdt touched t)
                account
              ∷ [];
          published = refl;
          balances = λ x.
              subst (λ k. Books u x c.realized_pnl_usdt w.store s (same_key k x)) (sym of_user)
                (settled-balance u x c.realized_pnl_usdt w.store s a has new);
        })
        rest

  -- A trade that closed: what was published accounts for the balance of its user.
  close_and_announce-ok :
      (listed : List DemoAccount) (i u n : ℕ) (c : Closure) (touched : List ℕ) (t : DemoTrade)
      (w v : World)
      → find_trade i w.store.trades ≡ some t
      → t.user_id ≡ some u
      → close_and_announce config rows bus listed i u c touched w ≡ (ok n, v)
      → Accounted w v
  unfolding close_and_announce closed_trade announced_gains
  close_and_announce-ok listed i u n c touched t w v at of_user e =
      let (t1, w1, e1, k1) =
        >>=-ok (trade_object i)
          (λ y. try_change (closing y c touched) >> announce config rows bus listed i u) w n v e in
      let (found, same) = trade_object-found i w w1 t1 e1 in
      let is_t : t1 ≡ t = some-injective (sym found ∙ at) in
      let (u2, w2, e2, k2) =
        >>=-ok (try_change (closing t1 c touched)) (λ _. announce config rows bus listed i u) w1 n v
          k1 in
      let (s, closed, is_w2) = try_change-ok (closing t1 c touched) w1 w2 u2 e2 in
      let closed_w : closing t c touched w.store ≡ ok s =
        subst (λ y. closing y c touched w.store ≡ ok s) is_t
          (subst (λ (x : World). closing t1 c touched x.store ≡ ok s) same closed) in
      let d = close_demo_trade-Settled t _ _ _ touched w.store s closed_w in
      let is_u : d.user_id ≡ u = some-injective (sym d.of_user ∙ of_user) in
      let is_i : t.id ≡ i = find_trade-id i w.store.trades t at in
      let has = subst (λ k. find_account k w.store.accounts ≡ some d.account) is_u d.has_account in
      let now = record w { store = s } in
      let is_now : w2 ≡ now = is_w2 ∙ ap (λ (x : World). record x { store = s }) same in
      let new =
        subst (λ k. s.accounts ≡ update_account k (credit c.realized_pnl_usdt) w.store.accounts)
          is_u (ap (λ (x : Store). x.accounts) d.result) in
      let now_has =
        ap (find_account u) new
        ∙ find_account-updated (credit c.realized_pnl_usdt) (λ _. refl) u w.store.accounts d.account
            has in
      let now_at =
        ap (λ (x : Store). find_trade i x.trades) d.result
        ∙ subst
            (λ k.
              find_trade i (
                update_trade k
                  (closed_trade c.closed_reason c.realized_roi_pct c.realized_pnl_usdt touched)
                  w.store.trades)
              ≡ some
                  (closed_trade c.closed_reason c.realized_roi_pct c.realized_pnl_usdt touched t))
            (sym is_i)
            (find_trade-updated
              (closed_trade c.closed_reason c.realized_roi_pct c.realized_pnl_usdt touched)
              (λ _. refl) i w.store.trades t at) in
      let (account, rest) =
        announce-ok listed i u n _ _ now v now_at now_has
          (subst (λ (x : World). announce config rows bus listed i u x ≡ (ok n, v)) is_now k2) in
      closing-Accounted u c touched t d.account account w v s has of_user new rest

  pub after_decision-ok :
      (listed : List DemoAccount) (i u n : ℕ) (c : Option Closure) (touched : List ℕ)
      (t : DemoTrade) (w v : World)
      → find_trade i w.store.trades ≡ some t
      → t.user_id ≡ some u
      → after_decision config rows bus listed i u c touched w ≡ (ok n, v)
      → Accounted w v
  after_decision-ok listed i u n none touched t w v at of_user e =
      subst (Accounted w) (ap (λ o. o.1) e) (Accounted-same w w refl refl)
  after_decision-ok listed i u n (some c) touched t w v at of_user e =
      close_and_announce-ok listed i u n c touched t w v at of_user e
