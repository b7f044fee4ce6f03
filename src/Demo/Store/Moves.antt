-- ===== src/Demo/Store/Moves.antt =====
-- services/demo_engine/repository.py: what may happen to the tables at all. A move is one of the
-- four things that the demo engine does to them, with the conditions under which it does it.
use mrrik_ai_bot.Prelude.{
  ℕ, ◌≡◌, refl, sym, subst, false, List, [], ◌∷◌, ◌++◌, Option, none, some, ok, ◌⊎◌, inl, inr,
  Option-cases, ok-injective, err≢ok,
}
use mrrik_ai_bot.Decimal.{Decimal}
use mrrik_ai_bot.Demo.TradeLogic.{Reason}
use mrrik_ai_bot.Demo.Store.{
  DemoAccount, DemoTrade, TradeStatus, trade_open, trade_closed, Store, find_account, find_trade,
  update_trade, fill_legs, settle, add_trade, has_open_demo_trade, mark_demo_legs_filled,
  close_demo_trade, new_account, get_or_create_demo_account,
}

pub data Move : Type 0 where
  -- An account is created for a user.
  joins : (user_id : ℕ) (start_balance_usdt : Decimal) → Move
  -- A trade is opened for a user and a signal.
  opens : (user_id signal_id : ℕ) → DemoTrade → Move
  -- Legs of a trade are filled.
  fills : (trade_id : ℕ) → List ℕ → Move
  -- A trade is closed, and its profit goes to the account of its user.
  closes : (trade_id user_id : ℕ) → Reason → (roi pnl : Decimal) → List ℕ → Move

abbrev pub apply : Move → Store → Store
apply (joins u start) s = record s { accounts = s.accounts ++ new_account u start ∷ [] }
apply (opens u k t) s = add_trade t s
apply (fills i ks) s = record s { trades = update_trade i (fill_legs ks) s.trades }
apply (closes i u reason roi pnl touched) s = settle i u reason roi pnl touched s

-- The trade with the key is open.
abbrev pub OpenTradeOf : ℕ → Store → Type 0
OpenTradeOf i s = (t : DemoTrade) × (find_trade i s.trades ≡ some t) × (t.status ≡ trade_open)

-- When a move may be made.
abbrev pub Allowed : Move → Store → Type 0
Allowed (joins u start) s = find_account u s.accounts ≡ none
Allowed (opens u k t) s =
    (t.id ≡ s.next_trade_id)
    × (t.user_id ≡ some u)
    × (t.signal_id ≡ some k)
    × (t.status ≡ trade_open)
    × (has_open_demo_trade u k s ≡ false)
Allowed (fills i ks) s = OpenTradeOf i s
Allowed (closes i u reason roi pnl touched) s =
    (t : DemoTrade) × (find_trade i s.trades ≡ some t)
    × (t.status ≡ trade_open)
    × (t.user_id ≡ some u)
    × ((a : DemoAccount) × (find_account u s.accounts ≡ some a))

-- The tables come from others by moves that were allowed when they were made.
pub data Reach : Store → Store → Type 0 where
  stay : {s : Store} → Reach s s
  go : {s t : Store} (m : Move) → Allowed m s → Reach (apply m s) t → Reach s t

pub Reach-refl : (s : Store) → Reach s s
Reach-refl s = stay

pub Reach-trans : (s t u : Store) → Reach s t → Reach t u → Reach s u
Reach-trans s t u stay k = k
Reach-trans s t u (go m a h) k = go m a (Reach-trans (apply m s) t u h k)

pub one_move : (m : Move) (s : Store) → Allowed m s → Reach s (apply m s)
one_move m s a = go m a stay

-- A store predicate that every allowed move keeps holds of whatever is reached.
pub Reach-invariant {κ} :
    (P : Store → Type κ)
    → ((m : Move) (s : Store) → Allowed m s → P s → P (apply m s))
    → (s t : Store) → Reach s t
    → P s
    → P t
Reach-invariant P step s t stay p = p
Reach-invariant P step s t (go m a h) p = Reach-invariant P step (apply m s) t h (step m s a p)

pub mark_demo_legs_filled-Reach :
    (i : ℕ) (ks : List ℕ) (s : Store) → OpenTradeOf i s → Reach s (mark_demo_legs_filled i ks s)
unfolding mark_demo_legs_filled
mark_demo_legs_filled-Reach i [] s h = stay
mark_demo_legs_filled-Reach i (k ∷ ks) s h = one_move (fills i (k ∷ ks)) s h

pub status-cases : (s : TradeStatus) → (s ≡ trade_open) ⊎ (s ≡ trade_closed)
status-cases trade_open = inl refl
status-cases trade_closed = inr refl

-- What `close_demo_trade` did when it raised nothing.
pub record Settled (t : DemoTrade) (reason : Reason) (roi pnl : Decimal) (touched : List ℕ)
    (s s' : Store) : Type 0 where
  pub user_id : ℕ
  pub account : DemoAccount
  pub was_open : t.status ≡ trade_open
  pub of_user : t.user_id ≡ some user_id
  pub has_account : find_account user_id s.accounts ≡ some account
  pub result : s' ≡ settle t.id user_id reason roi pnl touched s

pub close_demo_trade-Settled :
    (t : DemoTrade) (reason : Reason) (roi pnl : Decimal) (touched : List ℕ) (s s' : Store)
    → close_demo_trade t reason roi pnl touched s ≡ ok s'
    → Settled t reason roi pnl touched s s'
unfolding close_demo_trade
close_demo_trade-Settled t reason roi pnl touched s s' e = elim (status-cases t.status) [
  | inr h ↦ absurd (err≢ok (rw h at e))
  | inl h ↦ elim (Option-cases t.user_id) [
    | inl n ↦ absurd (err≢ok (rw (h, n) at e))
    | inr (u, is_u) ↦ elim (Option-cases (find_account u s.accounts)) [
      | inl n ↦ absurd (err≢ok (rw (h, is_u, n) at e))
      | inr (a, is_a) ↦ record {
        user_id = u;
        account = a;
        was_open = h;
        of_user = is_u;
        has_account = is_a;
        result = sym (ok-injective (rw (h, is_u, is_a) at e));
      }
    ]
  ]
]

pub close_demo_trade-Reach :
    (t : DemoTrade) (reason : Reason) (roi pnl : Decimal) (touched : List ℕ) (s s' : Store)
    → find_trade t.id s.trades ≡ some t
    → close_demo_trade t reason roi pnl touched s ≡ ok s'
    → Reach s s'
close_demo_trade-Reach t reason roi pnl touched s s' found e =
    let d = close_demo_trade-Settled t reason roi pnl touched s s' e in
    subst (Reach s) (sym d.result) (
      one_move (closes t.id d.user_id reason roi pnl touched) s
        (t, found, d.was_open, d.of_user, (d.account, d.has_account)))

pub get_or_create_demo_account-Reach :
    (u : ℕ) (start : Decimal) (s : Store) → Reach s (get_or_create_demo_account u start s).1
unfolding get_or_create_demo_account
get_or_create_demo_account-Reach u start s = go_on (find_account u s.accounts) refl
  where
    go_on :
        (o : Option DemoAccount)
        → find_account u s.accounts ≡ o
        → Reach s
            (elim o as (λ _. DemoAccount × Store) [
              | some account ↦ (account, s)
              | none ↦
                  let account = new_account u start in
                  (account, record s { accounts = s.accounts ++ account ∷ [] })
            ]).1
    go_on none e = one_move (joins u start) s e
    go_on (some a) e = stay
