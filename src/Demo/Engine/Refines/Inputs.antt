-- ===== src/Demo/Engine/Refines/Inputs.antt =====
-- services/demo_engine/main.py: whatever the service works off, the tables change by allowed moves.
use mrrik_ai_bot.Prelude.{ℕ, ◌≡◌, refl, sym, subst, List, [], ◌∷◌, some, Result, ok, err, ◌≤◌}
use mrrik_ai_bot.Demo.Store.{DemoTrade, trade_closed, find_trade, is_open_for}
use mrrik_ai_bot.Demo.Store.Frames.{count_if}
use mrrik_ai_bot.Demo.Store.Frozen.{IsStore, Reach-Rests, Reach-IsStore}
use mrrik_ai_bot.Demo.Store.Moves.{Reach, stay, Reach-trans}
use mrrik_ai_bot.Demo.Engine.{DemoEngineConfig, Rows, Bus, World, Session, DemoHandleResult}
use mrrik_ai_bot.Demo.Engine.Service.{
  Input, message, mark_price, unreadable, other_event, signal_created, session_scope, end_scope,
  acked, consume_signal, track_price, serve_one, serve,
}
use mrrik_ai_bot.Demo.Engine.Prices.{handle_mark_price}
use mrrik_ai_bot.Demo.Engine.Signals.{handle_signal_created}
use mrrik_ai_bot.Demo.Engine.Refines.{Moved}
use mrrik_ai_bot.Demo.Engine.Refines.PriceTicks.{handle_mark_price-Reach}
use mrrik_ai_bot.Demo.Engine.Refines.NewSignals.{IsKeyed, handle_signal_created-Moved}

session_scope-Moved :
    (action : Session DemoHandleResult) (w : World)
    → Moved w (action w).1
    → Moved w (session_scope action w).1
unfolding session_scope
session_scope-Moved action w = go (action w)
  where
    go : (o : Result DemoHandleResult × World) → Moved w o.1 → Moved w (end_scope w o).1
    go (ok r, v) h = h
    go (err e, v) h = stay

acked-world : (o : Result DemoHandleResult × World) → (acked o).1 ≡ o.1
acked-world (ok r, w) = refl
acked-world (err e, w) = refl

module _ (config : DemoEngineConfig) (rows : Rows) (bus : Bus) (keyed : IsKeyed rows) where
  serve_one-Reach :
      (input : Input) (w : World)
      → IsStore w.store
      → Reach w.store (serve_one config rows bus input w).store
  unfolding consume_signal track_price
  serve_one-Reach (message unreadable) w h = stay
  serve_one-Reach (message other_event) w h = stay
  serve_one-Reach (message (signal_created payload)) w h = subst (Moved w) (sym (acked-world _)) (
      session_scope-Moved (handle_signal_created config rows bus payload) w
        (handle_signal_created-Moved config rows bus payload keyed w))
  serve_one-Reach (mark_price symbol price) w h =
      session_scope-Moved (handle_mark_price config rows bus symbol price) w
        (handle_mark_price-Reach config rows bus symbol price w h)

  -- Whatever messages and prices the service works off in whatever order, and whatever the bus
  -- raises, the tables that it leaves come from the ones it started with by moves that were allowed
  -- when they were made: a user who has no account gets one, a trade is opened under a new key for
  -- a user and a signal with no open trade, legs are filled only in an open trade, a trade is closed
  -- only while it is open and then its profit is added to the balance of its user's account. The
  -- tables must have growing keys and at most one open trade for each user and signal, and a signal
  -- must be found under its own key.
  pub serve-Reach :
      (inputs : List Input) (w : World)
      → IsStore w.store
      → Reach w.store (serve config rows bus inputs w).store
  unfolding serve
  serve-Reach [] w h = stay
  serve-Reach (input ∷ inputs) w h =
      let v = serve_one config rows bus input w in
      let r = serve_one-Reach input w h in
      Reach-trans w.store v.store _ r (serve-Reach inputs v (Reach-IsStore w.store v.store r h))

  -- While the service runs, a trade that is closed stays in the tables as it is, whatever messages
  -- and prices follow: neither its result nor its legs change. The tables must have growing keys
  -- and at most one open trade for each user and signal, and a signal must be found under its key.
  pub serve-Rests :
      (inputs : List Input) (w : World) (i : ℕ) (t : DemoTrade)
      → IsStore w.store
      → find_trade i w.store.trades ≡ some t
      → t.status ≡ trade_closed
      → find_trade i (serve config rows bus inputs w).store.trades ≡ some t
  serve-Rests inputs w i t h found closed =
      Reach-Rests i t w.store _ (serve-Reach inputs w h) closed found

  -- While the service runs, no user ever has two open trades of one signal, whatever messages and
  -- prices arrive in whatever order. The tables it starts with must have growing keys and at most
  -- one open trade for each user and signal, and a signal must be found under its key.
  pub serve-single :
      (inputs : List Input) (w : World) (u k : ℕ)
      → IsStore w.store
      → count_if (is_open_for u k) (serve config rows bus inputs w).store.trades ≤ 1
  serve-single inputs w u k h =
      let kept = Reach-IsStore w.store _ (serve-Reach inputs w h) h in kept.single u k
