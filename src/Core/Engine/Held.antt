-- ===== src/Core/Engine/Held.antt =====
-- services/core_engine/engine.py: the trade that is being opened, as the last row of the table.
use mrrik_ai_bot.Prelude.{
  ℕ, suc, ◌<◌, ◌≡◌, ◌⊎◌, sym, ◌∙◌, ap, subst, List, [], ◌∷◌, ◌++◌, none, some, Result, ok, err, All,
  arith,
}
use mrrik_ai_bot.Exchange.{Exchange}
use mrrik_ai_bot.Exchange.Action.{Ends, resume-Ends}
use mrrik_ai_bot.Core.Trades.{
  Trade, trade_open, trade_closed, trade_skipped, trade_error, aborted_no_protection,
}
use mrrik_ai_bot.Core.Repository.{Tables, update_trade}
use mrrik_ai_bot.Core.Engine.{
  Bus, Event, Desk, on_trade, publish, publish_safely, publish_admin_alerts, publish_skip,
  admin_alert, entry_guard_failed,
}
use mrrik_ai_bot.Core.Engine.Users.{Counted, counted_opened, counted_skipped, counted_error}
use mrrik_ai_bot.Core.Engine.Untouched.{Untouched, publish-Untouched, publish_skip-Untouched}

-- Every key is below the next one.
abbrev pub IsFresh : Tables → Type 0
IsFresh s = All (λ (t : Trade). t.id < s.next_trade_id) s.trades

-- The tables with one more trade, whose key was the next one.
abbrev pub with_trade : Tables → Trade → Tables
with_trade s t = record s { trades = s.trades ++ t ∷ []; next_trade_id = suc s.next_trade_id }

-- The desk has the tables with one more trade, of which the predicate holds.
pub record Holds {E : Exchange} (s : Tables) (P : Trade → Type 0) (d : Desk E) : Type 0 where
  pub trade : Trade
  pub id : trade.id ≡ s.next_trade_id
  pub tables : d.tables ≡ with_trade s trade
  pub so : P trade

abbrev pub Anything : Trade → Type 0
Anything t = Unit

-- How the row of the trade stands for a user who is counted in that way.
abbrev pub Final : Counted → Trade → Type 0
Final (counted_opened b) t = t.status ≡ trade_open
Final counted_skipped t = t.status ≡ trade_skipped
Final counted_error t =
    ((t.status ≡ trade_closed) × (t.closed_reason ≡ some aborted_no_protection))
    ⊎ ((t.status ≡ trade_open) × (t.sl_order_id ≡ none))
    ⊎ (t.status ≡ trade_error)

update-last :
    (i : ℕ) (f : Trade → Trade) (ts : List Trade) (t : Trade)
    → All (λ (x : Trade). x.id < i) ts
    → t.id ≡ i
    → update_trade i f (ts ++ t ∷ []) ≡ ts ++ f t ∷ []
unfolding update_trade
update-last i f [] t h e = ground arith
update-last i f (x ∷ ts) t h e = ground (arith, h.0, update-last i f ts t h.1 e)

module _ {E : Exchange} (s : Tables) (fresh : IsFresh s) where
  -- An assignment to the new trade.
  pub on_trade-Holds :
      (P Q : Trade → Type 0) (i : ℕ) (f : Trade → Trade) (d : Desk E)
      → i ≡ s.next_trade_id
      → ((t : Trade) → (f t).id ≡ t.id)
      → ((t : Trade) → P t → Q (f t))
      → Holds s P d
      → Holds s Q (on_trade E i f d).1
  on_trade-Holds P Q i f d at keeps step h = record {
    trade = f h.trade;
    id = keeps h.trade ∙ h.id;
    tables =
        ap (λ (x : Tables). record x { trades = update_trade i f x.trades }) h.tables
        ∙ ap (λ ts. record (with_trade s h.trade) { trades = ts })
            (update-last i f s.trades h.trade
              (subst (λ n. All (λ (x : Trade). x.id < n) s.trades) (sym at) fresh) (h.id ∙ sym at));
    so = step h.trade h.so;
  }

  pub same-Holds :
      (P : Trade → Type 0) (d d' : Desk E) → d'.tables ≡ d.tables → Holds s P d → Holds s P d'
  same-Holds P d d' e h = record { trade = h.trade; id = h.id; tables = e ∙ h.tables; so = h.so }

  pub publish-Ends :
      (P : Trade → Type 0) (bus : Bus) (e : Event) (d : Desk E)
      → Holds s P d
      → Ends (λ _. Holds s P) (Holds s P) (publish E bus e d)
  publish-Ends P bus e d h = either (publish E bus e d) (publish-Untouched E bus e d)
    where
      either :
          (o : Result (Unit {0}) × Desk E) → Untouched d o.1 → Ends (λ _. Holds s P) (Holds s P) o
      either (ok u, x) k = same-Holds P d x k.tables h
      either (err y, x) k = same-Holds P d x k.tables h

  pub publish_skip-Ends :
      (P : Trade → Type 0) (bus : Bus) (u : ℕ) (d : Desk E)
      → Holds s P d
      → Ends (λ _. Holds s P) (Holds s P) (publish_skip E bus u entry_guard_failed d)
  publish_skip-Ends P bus u d h =
      either (publish_skip E bus u entry_guard_failed d)
        (publish_skip-Untouched E bus u entry_guard_failed d)
    where
      either :
          (o : Result (Unit {0}) × Desk E) → Untouched d o.1 → Ends (λ _. Holds s P) (Holds s P) o
      either (ok u, x) k = same-Holds P d x k.tables h
      either (err y, x) k = same-Holds P d x k.tables h

  pub any-Holds : (P : Trade → Type 0) (d : Desk E) → Holds s P d → Holds s Anything d
  any-Holds P d h = record { trade = h.trade; id = h.id; tables = h.tables; so = tt }

  -- What goes on with the predicate, and may raise.
  abbrev pub Goes : (P : Trade → Type 0) → {A : Type 0} → Result A × Desk E → Type 0
  Goes P o = Ends (λ _. Holds s P) (Holds s P) o

  pub publish_safely-Goes :
      (P : Trade → Type 0) (bus : Bus) (e : Event) (d : Desk E)
      → Holds s P d
      → Goes P (publish_safely E bus e d)
  unfolding publish_safely
  publish_safely-Goes P bus e d h =
      let same = publish-Untouched E bus e d in same-Holds P d _ same.tables h

  pub publish_admin_alerts-Goes :
      (P : Trade → Type 0) (bus : Bus) (i : ℕ) (admins : List ℕ) (d : Desk E)
      → Holds s P d
      → Goes P (publish_admin_alerts E bus i admins d)
  unfolding publish_admin_alerts
  publish_admin_alerts-Goes P bus i [] d h = h
  publish_admin_alerts-Goes P bus i (admin ∷ admins) d h =
      resume-Ends (λ _. Holds s P) (λ _. Holds s P) (Holds s P)
        (λ _. publish_admin_alerts E bus i admins) (publish_safely E bus (admin_alert admin i) d)
        (publish_safely-Goes P bus (admin_alert admin i) d h)
        λ _ x g. publish_admin_alerts-Goes P bus i admins x g
