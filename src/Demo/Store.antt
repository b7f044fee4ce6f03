-- ===== src/Demo/Store.antt =====
-- services/demo_engine/repository.py over the tables of shared/models/core.py that it writes:
-- demo_accounts, demo_trades and demo_trade_legs. A trade or an account that the code holds as an
-- object of the session is held here by its key, and read from the tables when it is used. Times
-- and the rounding of numeric columns are left out.
pub mod Frames
pub mod Moves
pub mod Frozen
pub mod Listing
use mrrik_ai_bot.Prelude.{
  ℕ, suc, ◌+◌, ◌≡◌, Bool, true, false, ◌&&◌, ◌||◌, List, [], ◌∷◌, ◌++◌, Option, none, some, Result,
  ok, err, ◌==◌, any, map, keep_if, if◌then◌else◌,
}
use mrrik_ai_bot.Prelude.Sets.{elem, sorted_set}
use mrrik_ai_bot.Prelude.Text.{Text, text_eq}
use mrrik_ai_bot.Decimal.{Decimal, add}
use mrrik_ai_bot.Signal.Types.{SignalSide}
use mrrik_ai_bot.Demo.TradeLogic.{Reason, DemoLegPlan}
use mrrik_ai_bot.Demo.TradeLogic.Opening.{Realism, DemoOpenPlan}

pub record DemoAccount : Type 0 where
  pub user_id : ℕ
  pub start_balance_usdt : Decimal
  pub balance_usdt : Decimal

-- The column `status` of demo_trade_legs.
pub data LegStatus : Type 0 where
  leg_open leg_filled leg_cancelled : LegStatus

pub record DemoTradeLeg : Type 0 where
  pub leg_index : ℕ
  pub target_price : Decimal
  pub qty : Decimal
  pub status : LegStatus

-- The column `status` of demo_trades.
pub data TradeStatus : Type 0 where
  trade_open trade_closed : TradeStatus

pub record DemoTrade : Type 0 where
  pub id : ℕ
  pub signal_id : Option ℕ
  pub user_id : Option ℕ
  pub symbol : Text
  pub side : SignalSide
  pub leverage : ℕ
  pub margin_usdt : Decimal
  pub notional_usdt : Decimal
  pub qty : Decimal
  pub liq_price : Option Decimal
  pub status : TradeStatus
  pub realized_pnl_usdt : Option Decimal
  pub realized_roi_pct : Option Decimal
  pub touched_tps : List ℕ
  pub closed_reason : Option Reason
  pub fields_realism_applied : Realism
  pub legs : List DemoTradeLeg

-- The rows of a signal that the demo engine reads. `side` and `targets_clean` hold nothing where the
-- stored text is not a side or not a number.
pub record Signal : Type 0 where
  pub id : ℕ
  pub symbol : Text
  pub side : Option SignalSide
  pub entry : Decimal
  pub stop_loss : Decimal
  pub leverage : ℕ
  pub targets_clean : List (Option Decimal)
  pub is_accepted : Bool

-- The tables. `next_trade_id` is the key that the database gives the next trade.
pub record Store : Type 0 where
  pub accounts : List DemoAccount
  pub trades : List DemoTrade
  pub next_trade_id : ℕ

abbrev pub is_open : TradeStatus → Bool
is_open trade_open = true
is_open trade_closed = false

-- `self._session.get(DemoAccount, user_id)`
unfoldable pub find_account : ℕ → List DemoAccount → Option DemoAccount
find_account u [] = none
find_account u (a ∷ accounts) = if a.user_id == u then some a else find_account u accounts

-- The trade object with the key.
unfoldable pub find_trade : ℕ → List DemoTrade → Option DemoTrade
find_trade i [] = none
find_trade i (t ∷ trades) = if t.id == i then some t else find_trade i trades

-- What an assignment to the fields of an account or a trade does to its table.
unfoldable pub update_account :
    ℕ → (DemoAccount → DemoAccount) → List DemoAccount → List DemoAccount
update_account u f [] = []
update_account u f (a ∷ accounts) =
    (if a.user_id == u then f a else a) ∷ update_account u f accounts

unfoldable pub update_trade : ℕ → (DemoTrade → DemoTrade) → List DemoTrade → List DemoTrade
update_trade i f [] = []
update_trade i f (t ∷ trades) = (if t.id == i then f t else t) ∷ update_trade i f trades

abbrev pub new_account : ℕ → Decimal → DemoAccount
new_account u start = record { user_id = u; start_balance_usdt = start; balance_usdt = start }

-- `get_or_create_demo_account(user_id, start_balance_usdt)`
unfoldable pub get_or_create_demo_account : ℕ → Decimal → Store → DemoAccount × Store
get_or_create_demo_account u start s = elim (find_account u s.accounts) [
  | some account ↦ (account, s)
  | none ↦
      let account = new_account u start in
      (account, record s { accounts = s.accounts ++ account ∷ [] })
]

abbrev pub same_key : Option ℕ → ℕ → Bool
same_key none k = false
same_key (some i) k = i == k

-- The rows that `has_open_demo_trade` looks for.
abbrev pub is_open_for : ℕ → ℕ → DemoTrade → Bool
is_open_for u signal_id t =
    same_key t.user_id u && same_key t.signal_id signal_id && is_open t.status

-- `has_open_demo_trade(user_id, signal_id)`
unfoldable pub has_open_demo_trade : ℕ → ℕ → Store → Bool
has_open_demo_trade u signal_id s = any (is_open_for u signal_id) s.trades

abbrev pub open_leg : DemoLegPlan → DemoTradeLeg
open_leg leg = record {
  leg_index = leg.leg_index;
  target_price = leg.target_price;
  qty = leg.qty;
  status = leg_open;
}

-- The row that `create_open_demo_trade` adds, with its legs. The signal's leverage is the one that
-- the caller has set for the time of the call.
unfoldable pub opened_trade : ℕ → ℕ → Signal → ℕ → SignalSide → DemoOpenPlan → DemoTrade
opened_trade id u signal leverage side plan = record {
  id = id;
  signal_id = some signal.id;
  user_id = some u;
  symbol = signal.symbol;
  side = side;
  leverage = leverage;
  margin_usdt = plan.margin_usdt;
  notional_usdt = plan.notional_usdt;
  qty = plan.qty;
  liq_price = some plan.liq_price;
  status = trade_open;
  realized_pnl_usdt = none;
  realized_roi_pct = none;
  touched_tps = [];
  closed_reason = none;
  fields_realism_applied = plan.fields_realism_applied;
  legs = map open_leg plan.legs;
}

abbrev pub add_trade : DemoTrade → Store → Store
add_trade t s = record s { trades = s.trades ++ t ∷ []; next_trade_id = suc s.next_trade_id }

-- `create_open_demo_trade`
unfoldable pub create_open_demo_trade :
    ℕ → Signal → ℕ → SignalSide → DemoOpenPlan → Store → DemoTrade × Store
create_open_demo_trade u signal leverage side plan s =
    let t = opened_trade s.next_trade_id u signal leverage side plan in (t, add_trade t s)

-- `list_open_demo_trades_by_symbol(symbol)`, the keys; trades stand in the order of their keys.
unfoldable pub list_open_demo_trades_by_symbol : Text → Store → List ℕ
list_open_demo_trades_by_symbol symbol s =
    map (λ (t : DemoTrade). t.id)
      (keep_if (λ t. text_eq t.symbol symbol && is_open t.status) s.trades)

-- `mark_demo_legs_filled`, on the trade object.
abbrev pub fill_if : Bool → LegStatus → LegStatus
fill_if true leg_open = leg_filled
fill_if _ status = status

unfoldable pub fill_legs : List ℕ → DemoTrade → DemoTrade
fill_legs selected t = record t {
  legs =
      map
        (λ (leg : DemoTradeLeg). record leg {
          status = fill_if (elem leg.leg_index selected) leg.status;
        })
        t.legs;
  touched_tps = sorted_set (t.touched_tps ++ selected);
}

unfoldable pub mark_demo_legs_filled : ℕ → List ℕ → Store → Store
mark_demo_legs_filled i [] s = s
mark_demo_legs_filled i (k ∷ ks) s = record s {
  trades = update_trade i (fill_legs (k ∷ ks)) s.trades;
}

abbrev pub cancel_if_open : LegStatus → LegStatus
cancel_if_open leg_open = leg_cancelled
cancel_if_open status = status

-- The assignments of `close_demo_trade` to the trade and to the account.
unfoldable pub closed_trade : Reason → Decimal → Decimal → List ℕ → DemoTrade → DemoTrade
closed_trade reason roi pnl touched t = record t {
  status = trade_closed;
  closed_reason = some reason;
  realized_roi_pct = some roi;
  realized_pnl_usdt = some pnl;
  touched_tps = sorted_set touched;
  legs = map (λ (leg : DemoTradeLeg). record leg { status = cancel_if_open leg.status }) t.legs;
}

abbrev pub credit : Decimal → DemoAccount → DemoAccount
credit pnl a = record a { balance_usdt = add a.balance_usdt pnl }

abbrev pub settle : ℕ → ℕ → Reason → Decimal → Decimal → List ℕ → Store → Store
settle i u reason roi pnl touched s = record s {
  trades = update_trade i (closed_trade reason roi pnl touched) s.trades;
  accounts = update_account u (credit pnl) s.accounts;
}

-- `close_demo_trade`, on a trade that the code holds.
unfoldable pub close_demo_trade :
    DemoTrade → Reason → Decimal → Decimal → List ℕ → Store → Result Store
close_demo_trade t reason roi pnl touched s = elim t.status [
  | trade_closed ↦ err "only open demo trades can be closed"
  | trade_open ↦ elim t.user_id [
    | none ↦ err "demo trade is missing user_id"
    | some u ↦ elim (find_account u s.accounts) [
      | none ↦ err "demo account does not exist"
      | some account ↦ ok (settle t.id u reason roi pnl touched s)
    ]
  ]
]
