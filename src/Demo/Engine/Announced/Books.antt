-- ===== src/Demo/Engine/Announced/Books.antt =====
-- services/demo_engine: what publishing and the closing of one trade do to the books.
use mrrik_ai_bot.Prelude.{
  ℕ, ◌≡◌, refl, sym, ◌∙◌, ap, subst, Bool, true, [], ◌∷◌, ◌++◌, Option, none, some, Result, ok, err,
  inl, inr, ◌==◌, Bool-cases, ==→eq, not-==→≢, err≢ok,
}
use mrrik_ai_bot.Decimal.{Decimal, sum_from}
use mrrik_ai_bot.Demo.Store.{
  DemoAccount, Store, find_account, new_account, update_account, credit, get_or_create_demo_account,
}
use mrrik_ai_bot.Demo.Store.Frames.{find_account-updated, find_account-other}
use mrrik_ai_bot.Demo.Engine.{
  Event, notify_user, Message, Bus, World, stored, sent, try_change, publish, notify,
}
use mrrik_ai_bot.Demo.Engine.Announced.{
  balance, balance_of, gain, announced_gains, credited, Accounted, Accounted-same, credited_nil,
}

pub publish-ok :
    (bus : Bus) (e : Event) (w v : World) (u : Unit {0})
    → publish bus e w ≡ (ok u, v)
    → v ≡ record w { published = w.published ++ e ∷ [] }
unfolding publish
publish-ok bus e w v u = go (bus w.published e)
  where
    go :
        (r : Result (Unit {0}))
        → sent w e r ≡ (ok u, v)
        → v ≡ record w { published = w.published ++ e ∷ [] }
    go (ok t) h = sym (ap (λ o. o.1) h)
    go (err x) h = absurd (err≢ok (ap (λ o. o.0) h))

-- A notice announces no closure.
pub notify-ok :
    (bus : Bus) (k : Option ℕ) (m : Message) (w v : World) (u : Unit {0})
    → notify bus k m w ≡ (ok u, v)
    → Accounted w v
unfolding notify announced_gains Accounted-same
notify-ok bus none m w v u h = subst (Accounted w) (ap (λ o. o.1) h) (Accounted-same w w refl refl)
notify-ok bus (some k) m w v u h =
    subst (Accounted w) (sym (publish-ok bus (notify_user k m) w v u h)) (record {
      events = notify_user k m ∷ [];
      published = refl;
      balances = λ x. (Accounted-same w w refl refl).balances x;
    })

pub try_change-ok :
    (f : Store → Result Store) (w v : World) (u : Unit {0})
    → try_change f w ≡ (ok u, v)
    → (s : Store) × (f w.store ≡ ok s) × (v ≡ record w { store = s })
try_change-ok f w v u = go (f w.store) refl
  where
    go :
        (r : Result Store)
        → f w.store ≡ r
        → stored w r ≡ (ok u, v)
        → (s : Store) × (f w.store ≡ ok s) × (v ≡ record w { store = s })
    go (ok s) e h = (s, e, sym (ap (λ o. o.1) h))
    go (err x) e h = absurd (err≢ok (ap (λ o. o.0) h))

-- The closure of one trade books its profit for its user, and for nobody else.
abbrev pub Books : ℕ → ℕ → Decimal → Store → Store → Bool → Type 0
Books u x pnl s s' b = balance_of x s' ≡ credited (balance_of x s) (gain b (some pnl) [])

pub settled-balance :
    (u x : ℕ) (pnl : Decimal) (s s' : Store) (a : DemoAccount)
    → find_account u s.accounts ≡ some a
    → s'.accounts ≡ update_account u (credit pnl) s.accounts
    → Books u x pnl s s' (u == x)
unfolding sum_from
settled-balance u x pnl s s' a found new = elim (Bool-cases (u == x)) [
  | inl same ↦ subst (Books u x pnl s s') (sym same) (
      subst (λ y. Books u y pnl s s' true) (==→eq u x same)
        (ap (λ accounts. balance (find_account u accounts)) new
          ∙ ap balance (find_account-updated (credit pnl) (λ _. refl) u s.accounts a found)
          ∙ sym (ap (λ o. credited (balance o) (pnl ∷ [])) found)))
  | inr other ↦ subst (Books u x pnl s s') (sym other) (
      ap (λ accounts. balance (find_account x accounts)) new
      ∙ ap balance (find_account-other (credit pnl) (λ _. refl) u x s.accounts (not-==→≢ u x other))
      ∙ sym (credited_nil (balance_of x s)))
]

-- The account of a user who has one is looked up, not created.
pub get_or_create-same :
    (u : ℕ) (start : Decimal) (s : Store) (a : DemoAccount)
    → find_account u s.accounts ≡ some a
    → (get_or_create_demo_account u start s).1 ≡ s
unfolding get_or_create_demo_account
get_or_create-same u start s a found =
    ap
      (λ o.
        (elim o as (λ _. DemoAccount × Store) [
          | some account ↦ (account, s)
          | none ↦
              let account = new_account u start in
              (account, record s { accounts = s.accounts ++ account ∷ [] })
        ]).1)
      found
