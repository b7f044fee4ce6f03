-- ===== src/Demo/Stats.antt =====
-- services/demo_engine/stats.py: `compute_demo_stats`, on what services/demo_engine/repository.py
-- gathers in `get_demo_stats`. Printing the statistics is left out.
pub mod Recount
use mrrik_ai_bot.Prelude.{
  ℕ, ◌+◌, ◌-◌, ◌≤◌, ◌≡◌, refl, Bool, true, false, not, List, [], ◌∷◌, Option, none, some, ◌==◌,
  length, map, keep_if, arith, if◌then◌else◌,
}
use mrrik_ai_bot.Decimal.{Decimal, of_ℕ, sub, mul, div, lt, eq}
use mrrik_ai_bot.Demo.Store.{
  DemoAccount, DemoTrade, TradeStatus, trade_open, trade_closed, Store, is_open, find_account,
  same_key,
}
use mrrik_ai_bot.Demo.Engine.{Settings, Rows}

-- A row of `trades`.
pub record TradeRow : Type 0 where
  pub signal_id : Option ℕ
  pub status : TradeStatus
  pub realized_pnl_usdt : Option Decimal

pub record RawStats : Type 0 where
  pub start_balance_usdt : Decimal
  pub current_balance_usdt : Decimal
  pub fixed_margin_usdt : Decimal
  pub trades : List TradeRow

abbrev pub row_of : DemoTrade → TradeRow
row_of t = record {
  signal_id = t.signal_id;
  status = t.status;
  realized_pnl_usdt = t.realized_pnl_usdt;
}

abbrev start_of : Option DemoAccount → Decimal
start_of none = of_ℕ 0
start_of (some account) = account.start_balance_usdt

abbrev current_of : Option DemoAccount → Decimal
current_of none = of_ℕ 0
current_of (some account) = account.balance_usdt

abbrev fixed_margin_of : Option Settings → Decimal
fixed_margin_of none = of_ℕ 10
fixed_margin_of (some settings) = settings.fixed_margin_usdt

-- `get_demo_stats(user_id)`
unfoldable pub get_demo_stats : Rows → ℕ → Store → RawStats
get_demo_stats rows u s = record {
  start_balance_usdt = start_of (find_account u s.accounts);
  current_balance_usdt = current_of (find_account u s.accounts);
  fixed_margin_usdt = fixed_margin_of (rows.settings u);
  trades = map row_of (keep_if (λ t. same_key t.user_id u) s.trades);
}

pub record DemoStats : Type 0 where
  pub start_balance_usdt : Decimal
  pub current_balance_usdt : Decimal
  pub fixed_margin_usdt : Decimal
  pub signals_traded : ℕ
  pub open_count : ℕ
  pub closed_win_count : ℕ
  pub closed_loss_count : ℕ
  pub closed_count : ℕ
  pub win_rate_pct : Decimal
  pub net_profit_usdt : Decimal
  pub net_profit_pct : Decimal

-- `_decimal(trade.get("realized_pnl_usdt", "0")) > 0`; nothing counts as 0.
abbrev pub wins : Option Decimal → Bool
wins none = lt (of_ℕ 0) (of_ℕ 0)
wins (some pnl) = lt (of_ℕ 0) pnl

-- `trade.get("status") == "closed"`
abbrev pub is_closed : TradeStatus → Bool
is_closed trade_open = false
is_closed trade_closed = true

abbrev pub open_trades : List TradeRow → List TradeRow
open_trades trades = keep_if (λ (t : TradeRow). is_open t.status) trades

abbrev pub closed_trades : List TradeRow → List TradeRow
closed_trades trades = keep_if (λ (t : TradeRow). is_closed t.status) trades

-- How many of the closed trades have won.
unfoldable pub win_count : List TradeRow → ℕ
win_count trades = length (keep_if (λ (t : TradeRow). wins t.realized_pnl_usdt) trades)

abbrev percentage : Decimal → Decimal → Decimal
percentage part whole = mul (div part whole) (of_ℕ 100)

-- `compute_demo_stats`
unfoldable pub compute_demo_stats : RawStats → DemoStats
unfolding win_count
compute_demo_stats raw =
    let closed = closed_trades raw.trades in
    let count = length closed in
    let win = win_count closed in
    let net_profit = sub raw.current_balance_usdt raw.start_balance_usdt in
    record {
      start_balance_usdt = raw.start_balance_usdt;
      current_balance_usdt = raw.current_balance_usdt;
      fixed_margin_usdt = raw.fixed_margin_usdt;
      signals_traded = length raw.trades;
      open_count = length (open_trades raw.trades);
      closed_win_count = win;
      closed_loss_count = count - win;
      closed_count = count;
      win_rate_pct = if count == 0 then of_ℕ 0 else percentage (of_ℕ win) (of_ℕ count);
      net_profit_usdt = net_profit;
      net_profit_pct =
          if eq raw.start_balance_usdt (of_ℕ 0)
          then of_ℕ 0
          else percentage net_profit raw.start_balance_usdt;
    }
