-- ===== src/Core/Reconciliation.antt =====
-- services/core_engine/reconciliation.py: `reconcile_open_trades`. The client that the factory makes
-- for a trade is the exchange account of the trade's user, and `connect` says whether making it
-- raises. A leg that the code holds as an object is held by its index in the trade.
pub mod Quiet
pub mod Passes
pub mod Counted
pub mod Checked
pub mod Covered
pub mod Protected
use mrrik_ai_bot.Prelude.{
  ℕ, zero, suc, ◌+◌, Bool, true, false, List, [], ◌∷◌, ◌++◌, Option, none, some, Result, ok, err,
  ◌==◌, if◌then◌else◌,
}
use mrrik_ai_bot.Prelude.Text.{Text, text_eq}
use mrrik_ai_bot.Decimal.{Decimal, of_ℕ, lt}
use mrrik_ai_bot.Exchange.{
  Exchange, World, Call, ExchangeOrder, OrderRequest, PositionSnapshot, call, is_listed,
  get_position, get_open_algo_orders, place_stop_market, place_take_profit_market, to_close,
  to_binance_order_side, to_binance_position_side,
}
use mrrik_ai_bot.Exchange.Action.{Action, pure, lift, ◌>>=◌, ◌>>◌}
use mrrik_ai_bot.Core.Ids.{Purpose, client_order_id}
use mrrik_ai_bot.Core.Trades.{
  Trade, TradeLeg, LegStatus, leg_open, reconciled_closed_unknown, set_trade_sl_order, close_trade,
}
use mrrik_ai_bot.Core.Repository.{is_active, set_leg_tp_order}
use mrrik_ai_bot.Core.Lifecycle.{remaining_qty}

-- What an error text says of a trade.
pub data ReconcileError : Type 0 where
  were_missing signal_missing failed : (trade_id : ℕ) → ReconcileError

pub record ReconcileResult : Type 0 where
  pub checked_trades : ℕ
  pub closed_missing_positions : ℕ
  pub repaired_orders : ℕ
  pub errors : List ReconcileError

-- How the look at one trade ends, where nothing raises.
pub data Verdict : Type 0 where
  closed_missing without_position without_signal examined : Verdict

-- `stored or computed`: an empty id counts as none.
abbrev pub id_or : Option Text → Result Text → Result Text
id_or none computed = computed
id_or (some []) computed = computed
id_or (some (c ∷ cs)) computed = ok (c ∷ cs)

-- `sl_id`
unfoldable pub stop_id : Trade → Result Text
stop_id t = id_or t.sl_order_id (client_order_id t.id Purpose.sl none)

-- `tp_id`
unfoldable pub leg_id : ℕ → TradeLeg → Result Text
leg_id i leg = id_or leg.tp_order_id (client_order_id i Purpose.tp (some leg.leg_index))

abbrev pub repair_request : Trade → Text → OrderRequest
repair_request t id = record {
  symbol = t.symbol;
  side = to_binance_order_side t.side to_close;
  position_side = to_binance_position_side t.side;
  client_order_id = id;
}

-- The stop that is placed: at the entry, where the trade's stop is the break-even one.
abbrev pub stop_call : Trade → Text → Text → Call
stop_call t be_id id =
    place_stop_market (repair_request t id) (remaining_qty t)
      (if text_eq id be_id then t.entry else t.stop_loss)

abbrev pub leg_call : Trade → TradeLeg → Text → Call
leg_call t leg id = place_take_profit_market (repair_request t id) leg.qty leg.target_price

module _ (E : Exchange) where
  -- One trade under repair, and the number of orders placed for it.
  pub record Bench : Type 0 where
    pub world : World E
    pub trade : Trade
    pub repaired : ℕ

  abbrev pub on_exchange : {A : Type 0} → Action (World E) A → Action Bench A
  on_exchange m b = let (r, w) = m b.world in (r, record b { world = w })

  abbrev pub note : (Trade → Trade) → Action Bench (Unit {0})
  note f b = (ok tt, record b { trade = f b.trade; repaired = suc b.repaired })

  -- The stop loss, where it is not among the orders.
  unfoldable pub place_stop : Trade → Text → Action Bench (Unit {0})
  place_stop t id = do
    be_id ← lift (client_order_id t.id Purpose.be_sl none)
    on_exchange (call E (stop_call t be_id id))
    note (λ trade. set_trade_sl_order trade id)

  unfoldable pub repair_stop : Trade → List ExchangeOrder → Action Bench (Unit {0})
  repair_stop t orders = do
    id ← lift (stop_id t)
    if is_listed id orders
        then pure tt
        else if lt (of_ℕ 0) (remaining_qty t)
        then place_stop t id
        else pure tt

  unfoldable pub place_leg : Trade → TradeLeg → Text → Action Bench (Unit {0})
  place_leg t leg id = do
    on_exchange (call E (leg_call t leg id))
    note (set_leg_tp_order leg.leg_index id)

  -- One turn of the loop over the legs, for a leg that is open.
  unfoldable pub repair_leg : Trade → List ExchangeOrder → TradeLeg → Action Bench (Unit {0})
  repair_leg t orders leg = do
    id ← lift (leg_id t.id leg)
    if is_listed id orders then pure tt else place_leg t leg id

  abbrev pub is_open : LegStatus → Bool
  is_open leg_open = true
  is_open _ = false

  unfoldable pub repair_legs : Trade → List ExchangeOrder → List TradeLeg → Action Bench (Unit {0})
  repair_legs t orders [] = pure tt
  repair_legs t orders (leg ∷ legs) = do
    if is_open leg.status then repair_leg t orders leg else pure tt
    repair_legs t orders legs

  abbrev pub repair_orders : Option ℕ → Trade → List ExchangeOrder → Action Bench Verdict
  repair_orders none t orders = pure without_signal
  repair_orders (some signal) t orders = do
    repair_stop t orders
    repair_legs t orders t.legs
    pure examined

  abbrev pub close_missing : Action Bench Verdict
  close_missing b = (
    ok closed_missing,
    record b {
      trade = close_trade b.trade reconciled_closed_unknown (of_ℕ 0) (of_ℕ 0) b.trade.touched_tps;
    },
  )

  abbrev pub compare : Trade → Option PositionSnapshot → List ExchangeOrder → Action Bench Verdict
  compare t none [] = close_missing
  compare t none (o ∷ os) = pure without_position
  compare t (some position) orders = repair_orders t.signal_id t orders

  -- The body of the `try`, once there is a client.
  unfoldable pub reconcile_trade : Trade → Action Bench Verdict
  reconcile_trade t = do
    position ← on_exchange (call E (get_position t.symbol (to_binance_position_side t.side)))
    orders ← on_exchange (call E (get_open_algo_orders t.symbol))
    compare t position orders

  -- What a trade adds to the result.
  abbrev pub tally : ℕ → Result Verdict → ℕ → ReconcileResult → ReconcileResult
  tally i (err e) n r = record r {
    checked_trades = suc r.checked_trades;
    repaired_orders = r.repaired_orders + n;
    errors = r.errors ++ failed i ∷ [];
  }
  tally i (ok closed_missing) n r = record r {
    checked_trades = suc r.checked_trades;
    closed_missing_positions = suc r.closed_missing_positions;
    repaired_orders = r.repaired_orders + n;
    errors = r.errors ++ were_missing i ∷ [];
  }
  tally i (ok without_signal) n r = record r {
    checked_trades = suc r.checked_trades;
    repaired_orders = r.repaired_orders + n;
    errors = r.errors ++ signal_missing i ∷ [];
  }
  tally i (ok _) n r = record r {
    checked_trades = suc r.checked_trades;
    repaired_orders = r.repaired_orders + n;
  }

  -- The accounts of the users, the first for a trade without one, and the counts so far.
  pub record Round : Type 0 where
    pub accounts : ℕ → World E
    pub result : ReconcileResult

  abbrev pub account_key : Option ℕ → ℕ
  account_key none = 0
  account_key (some u) = suc u

  abbrev pub set_account : ℕ → World E → (ℕ → World E) → ℕ → World E
  set_account u w accounts v = if v == u then w else accounts v

  abbrev pub bench : Round → Trade → Bench
  bench r t = record { world = r.accounts (account_key t.user_id); trade = t; repaired = 0 }

  abbrev pub after_trade : Round → Trade → Result Verdict × Bench → Trade × Round
  after_trade r t (verdict, b) = (
    b.trade,
    record {
      accounts = set_account (account_key t.user_id) b.world r.accounts;
      result = tally t.id verdict b.repaired r.result;
    },
  )

  -- The body of the loop, an exception of the factory included.
  abbrev pub visit : Result (Unit {0}) → Trade → Round → Trade × Round
  visit (err e) t r = (t, record r { result = tally t.id (err e) 0 r.result })
  visit (ok client) t r = after_trade r t (reconcile_trade t (bench r t))

  -- The loop over the trades of the database, which leaves those that are not active alone.
  unfoldable pub reconcile_from :
      (Trade → Result (Unit {0})) → List Trade → Round → List Trade × Round
  reconcile_from connect [] r = ([], r)
  reconcile_from connect (t ∷ ts) r =
      let (t', r') = if is_active t.status then visit (connect t) t r else (t, r) in
      let (ts', last) = reconcile_from connect ts r' in (t' ∷ ts', last)

  abbrev pub empty_result : ReconcileResult
  empty_result = record {
    checked_trades = 0;
    closed_missing_positions = 0;
    repaired_orders = 0;
    errors = [];
  }

  -- `reconcile_open_trades`
  unfoldable pub reconcile_open_trades :
      (Trade → Result (Unit {0})) → List Trade → (ℕ → World E) → List Trade × Round
  reconcile_open_trades connect trades accounts =
      reconcile_from connect trades (record { accounts = accounts; result = empty_result })
