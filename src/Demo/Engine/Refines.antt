-- ===== src/Demo/Engine/Refines.antt =====
-- services/demo_engine: what the service does to the tables is a sequence of allowed moves, here
-- with the parts that both handlers share.
pub mod PriceTicks
pub mod NewSignals
pub mod Inputs
use mrrik_ai_bot.Prelude.{
  ℕ, ◌++◌, ok-injective, ◌+◌, ◌≡◌, ◌≢◌, refl, sym, ◌∙◌, ap, subst, Bool, true, false, List, [], ◌∷◌,
  Option, none, some, Result, ok, err, All, Option-cases, Bool-cases,
}
use mrrik_ai_bot.Prelude.Text.{Text, upper}
use mrrik_ai_bot.Decimal.{Decimal}
use mrrik_ai_bot.Exchange.Action.{Keeps, lift, pure, Steps, >>=-Steps, >>=-at, returned-injective}
use mrrik_ai_bot.Demo.TradeLogic.{Closure, DemoCloseDecision, evaluate_price_tick}
use mrrik_ai_bot.Demo.Store.{
  DemoAccount, DemoTrade, Store, Signal, trade_open, find_trade, update_trade, fill_legs,
  mark_demo_legs_filled, close_demo_trade, closed_trade, get_or_create_demo_account, find_account,
  new_account, list_open_demo_trades_by_symbol,
}
use mrrik_ai_bot.Demo.Store.Frames.{find_trade-id, find_trade-other, find_trade-updated}
use mrrik_ai_bot.Demo.Store.Frozen.{IsStore}
use mrrik_ai_bot.Demo.Store.Listing.{
  Distinct, list_open_demo_trades-Open, list_open_demo_trades-Distinct,
}
use mrrik_ai_bot.Demo.Store.Moves.{
  Reach, stay, Reach-refl, Reach-trans, OpenTradeOf, mark_demo_legs_filled-Reach,
  close_demo_trade-Reach, close_demo_trade-Settled, get_or_create_demo_account-Reach,
}
use mrrik_ai_bot.Demo.Engine.{
  DemoEngineConfig, Event, Message, Rows, Bus, World, Session, publish, notify, stored, change,
  demo_closed, format_demo_close_message, sent, given, trade_object, try_change,
}
use mrrik_ai_bot.Demo.Engine.Prices.{
  account_of, object_or, announce, closing, close_and_announce, after_decision, tick_trade,
  tick_known, tick_one, tick_all, open_trade_of, signal_of, tick_listed, handle_mark_price,
}

-- Allowed moves, none of which changes another trade than the one with the key.
pub record Ticked (i : ℕ) (v w : World) : Type 0 where
  pub moves : Reach v.store w.store
  pub others : (j : ℕ) → i ≢ j → find_trade j w.store.trades ≡ find_trade j v.store.trades

pub Ticked-refl : (i : ℕ) (w : World) → Ticked i w w
Ticked-refl i w = record { moves = stay; others = λ j h. refl }

pub Ticked-trans : (i : ℕ) (u v w : World) → Ticked i u v → Ticked i v w → Ticked i u w
Ticked-trans i u v w h k = record {
  moves = Reach-trans u.store v.store w.store h.moves k.moves;
  others = λ j ne. k.others j ne ∙ h.others j ne;
}

-- The same tables.
pub Ticked-same : (i : ℕ) (v w : World) → w.store ≡ v.store → Ticked i v w
Ticked-same i v w e = record {
  moves = subst (Reach v.store) (sym e) stay;
  others = λ j h. ap (λ (s : Store). find_trade j s.trades) e;
}

pub publish-same : (bus : Bus) (e : Event) (w : World) → (publish bus e w).1.store ≡ w.store
unfolding publish
publish-same bus e w = go (bus w.published e)
  where
    go : (r : Result (Unit {0})) → (sent w e r).1.store ≡ w.store
    go (ok u) = refl
    go (err x) = refl

pub notify-same :
    (bus : Bus) (u : Option ℕ) (m : Message) (w : World) → (notify bus u m w).1.store ≡ w.store
unfolding notify
notify-same bus none m w = refl
notify-same bus (some u) m w = publish-same bus _ w

pub given-found : (o : Option DemoTrade) (t : DemoTrade) → given o ≡ ok t → o ≡ some t
given-found none t e = cc
given-found (some a) t e = ap some (ok-injective e)

pub trade_object-found :
    (i : ℕ) (w v : World) (t : DemoTrade)
    → trade_object i w ≡ (ok t, v)
    → (find_trade i w.store.trades ≡ some t) × (v ≡ w)
unfolding trade_object
trade_object-found i w v t e =
    (given-found (find_trade i w.store.trades) t (ap (λ o. o.0) e), sym (ap (λ o. o.1) e))

-- Reading a trade changes nothing.
pub trade_object-Ticked : (i j : ℕ) → Keeps (Ticked i) (trade_object j)
unfolding trade_object
trade_object-Ticked i j w = Ticked-refl i w

pub found_after :
    (i : ℕ) (w v : World) (t : DemoTrade)
    → trade_object i w ≡ (ok t, v)
    → find_trade i v.store.trades ≡ some t
found_after i w v t e =
    let (found, same) = trade_object-found i w v t e in
    subst (λ (x : World). find_trade i x.store.trades ≡ some t) (sym same) found

pub get_or_create-trades :
    (u : ℕ) (start : Decimal) (s : Store)
    → (get_or_create_demo_account u start s).1.trades ≡ s.trades
unfolding get_or_create_demo_account
get_or_create-trades u start s =
    elim (find_account u s.accounts)
      as (λ o.
        (elim o as (λ _. DemoAccount × Store) [
          | some account ↦ (account, s)
          | none ↦
              let account = new_account u start in
              (account, record s { accounts = s.accounts ++ account ∷ [] })
        ]).1.trades
        ≡ s.trades) [ none ↦ refl | some a ↦ refl ]

-- Creating an account changes no trade.
pub get_or_create-Ticked :
    (i u : ℕ) (start : Decimal) (w : World)
    → Ticked i w (record w { store = (get_or_create_demo_account u start w.store).1 })
get_or_create-Ticked i u start w = record {
  moves = get_or_create_demo_account-Reach u start w.store;
  others = λ j h. ap (find_trade j) (get_or_create-trades u start w.store);
}

abbrev pub Moved : World → World → Type 0
Moved v w = Reach v.store w.store

pub Moved-trans : (u v w : World) → Moved u v → Moved v w → Moved u w
Moved-trans u v w = Reach-trans u.store v.store w.store

-- Filling legs of an open trade.
pub fills-Ticked :
    (i : ℕ) (ks : List ℕ) (w : World)
    → OpenTradeOf i w.store
    → Ticked i w (record w { store = mark_demo_legs_filled i ks w.store })
unfolding mark_demo_legs_filled fill_legs
fills-Ticked i [] w opened = Ticked-refl i w
fills-Ticked i (k ∷ ks) w opened = record {
  moves = mark_demo_legs_filled-Reach i (k ∷ ks) w.store opened;
  others = λ j ne. find_trade-other (fill_legs (k ∷ ks)) (λ _. refl) i j w.store.trades ne;
}

pub still_open :
    (i : ℕ) (w v : World) (trades : List ℕ)
    → Ticked i w v
    → All (λ j. i ≢ j) trades
    → All (λ j. OpenTradeOf j w.store) trades
    → All (λ j. OpenTradeOf j v.store) trades
still_open i w v [] h ne opened = tt
still_open i w v (j ∷ trades) h ne ((t, found, is_open), opened) =
    ((t, h.others j ne.0 ∙ found, is_open), still_open i w v trades h ne.1 opened)
