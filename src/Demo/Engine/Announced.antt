-- ===== src/Demo/Engine/Announced.antt =====
-- services/demo_engine/engine.py: the balances and the closures that are announced.
pub mod Books
pub mod Closing
pub mod Ticks
use mrrik_ai_bot.Prelude.{
  ℕ, ◌≡◌, refl, sym, ◌∙◌, ap, Bool, true, false, ◌&&◌, List, [], ◌∷◌, ◌++◌, Option, none, some,
  ◌==◌, if◌then◌else◌, if-holds,
}
use mrrik_ai_bot.Decimal.{Decimal, sum_from, add}
use mrrik_ai_bot.Demo.Store.{DemoAccount, DemoTrade, Store, find_account, same_key}
use mrrik_ai_bot.Demo.Engine.{Event, demo_opened, demo_closed, notify_user, Message, World}

abbrev pub balance : Option DemoAccount → Option Decimal
balance none = none
balance (some account) = some account.balance_usdt

-- The balance of the user's account.
abbrev pub balance_of : ℕ → Store → Option Decimal
balance_of u s = balance (find_account u s.accounts)

abbrev pub gain : Bool → Option Decimal → List Decimal → List Decimal
gain true (some pnl) pnls = pnl ∷ pnls
gain _ _ pnls = pnls

-- The profits of the user's trades whose closure the events announce.
unfoldable pub announced_gains : ℕ → List Event → List Decimal
announced_gains u [] = []
announced_gains u (demo_closed t account ∷ events) =
    gain (same_key t.user_id u) t.realized_pnl_usdt (announced_gains u events)
announced_gains u (demo_opened t ∷ events) = announced_gains u events
announced_gains u (notify_user k m ∷ events) = announced_gains u events

-- The balance with the profits added one after the other.
abbrev pub credited : Option Decimal → List Decimal → Option Decimal
credited none pnls = none
credited (some b) pnls = some (sum_from b pnls)

-- What was published since, and what it announces, accounts for all balances.
pub record Accounted (w v : World) : Type 0 where
  pub events : List Event
  pub published : v.published ≡ w.published ++ events
  pub balances :
      (u : ℕ) → balance_of u v.store ≡ credited (balance_of u w.store) (announced_gains u events)

append_assoc : {A : Type 0} (xs ys zs : List A) → (xs ++ ys) ++ zs ≡ xs ++ (ys ++ zs)
append_assoc [] ys zs = refl
append_assoc (x ∷ xs) ys zs = ap (λ r. x ∷ r) (append_assoc xs ys zs)

pub append_nil : {A : Type 0} (xs : List A) → xs ++ [] ≡ xs
append_nil [] = refl
append_nil (x ∷ xs) = ap (λ r. x ∷ r) (append_nil xs)

gain-append :
    (b : Bool) (p : Option Decimal) (xs ys : List Decimal) → gain b p (xs ++ ys) ≡ gain b p xs ++ ys
gain-append true none xs ys = refl
gain-append true (some p) xs ys = refl
gain-append false p xs ys = refl

announced_gains-append :
    (u : ℕ) (xs ys : List Event)
    → announced_gains u (xs ++ ys) ≡ announced_gains u xs ++ announced_gains u ys
unfolding announced_gains
announced_gains-append u [] ys = refl
announced_gains-append u (demo_closed t a ∷ xs) ys =
    ap (gain (same_key t.user_id u) t.realized_pnl_usdt) (announced_gains-append u xs ys)
    ∙ gain-append (same_key t.user_id u) t.realized_pnl_usdt (announced_gains u xs) _
announced_gains-append u (demo_opened t ∷ xs) ys = announced_gains-append u xs ys
announced_gains-append u (notify_user k m ∷ xs) ys = announced_gains-append u xs ys

sum_from-append :
    (b : Decimal) (xs ys : List Decimal) → sum_from b (xs ++ ys) ≡ sum_from (sum_from b xs) ys
unfolding sum_from
sum_from-append b [] ys = refl
sum_from-append b (x ∷ xs) ys = sum_from-append (add b x) xs ys

credited-append :
    (o : Option Decimal) (xs ys : List Decimal)
    → credited (credited o xs) ys ≡ credited o (xs ++ ys)
credited-append none xs ys = refl
credited-append (some b) xs ys = ap some (sym (sum_from-append b xs ys))

pub credited_nil : (o : Option Decimal) → credited o [] ≡ o
unfolding sum_from
credited_nil none = refl
credited_nil (some b) = refl

-- Neither the balances nor the announcements change.
pub Accounted-same :
    (w v : World) → v.published ≡ w.published → v.store.accounts ≡ w.store.accounts → Accounted w v
unfolding announced_gains
Accounted-same w v p a = record {
  events = [];
  published = p ∙ sym (append_nil w.published);
  balances = λ u.
      ap (λ accounts. balance (find_account u accounts)) a
      ∙ sym (credited_nil (balance_of u w.store));
}

pub Accounted-trans : (u v w : World) → Accounted u v → Accounted v w → Accounted u w
Accounted-trans u v w h k = record {
  events = h.events ++ k.events;
  published =
      k.published
      ∙ ap (λ es. es ++ k.events) h.published
      ∙ append_assoc u.published h.events k.events;
  balances = λ x.
      k.balances x
      ∙ ap (λ b. credited b (announced_gains x k.events)) (h.balances x)
      ∙ credited-append (balance_of x u.store) _ _
      ∙ ap (credited (balance_of x u.store)) (sym (announced_gains-append x h.events k.events));
}
