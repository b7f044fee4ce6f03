-- ===== src/Demo/Stats/Recount.antt =====
-- services/demo_engine/stats.py: the counts of the statistics, told from the table of trades.
use mrrik_ai_bot.Prelude.{
  ℕ, suc, ◌+◌, ◌-◌, ◌≡◌, refl, sym, ap, ◌∙◌, true≢false, subst, arith, Bool, true, false, List, [],
  ◌∷◌, Option, none, some, length, map, keep_if, if◌then◌else◌,
}
use mrrik_ai_bot.Decimal.{Decimal, of_ℕ, lt}
use mrrik_ai_bot.Decimal.Order.{lt_irrefl}
use mrrik_ai_bot.Demo.Store.{DemoTrade, TradeStatus, trade_open, trade_closed, Store, same_key}
use mrrik_ai_bot.Demo.Engine.{Rows}
use mrrik_ai_bot.Demo.Stats.{
  TradeRow, DemoStats, row_of, wins, open_trades, closed_trades, win_count, get_demo_stats,
  compute_demo_stats,
}

-- A closed trade has won if its profit is known and positive.
pub data HasWon (t : DemoTrade) : Type 0 where
  profit : (pnl : Decimal) → t.realized_pnl_usdt ≡ some pnl → lt (of_ℕ 0) pnl ≡ true → HasWon t

-- It counts as lost if its profit is zero, negative or not known.
pub data HasLost (t : DemoTrade) : Type 0 where
  no_profit : (pnl : Decimal) → t.realized_pnl_usdt ≡ some pnl → lt (of_ℕ 0) pnl ≡ false → HasLost t
  not_known : t.realized_pnl_usdt ≡ none → HasLost t

-- Going once through the table, so many trades of the user are open, won and lost.
pub data Recount (u : ℕ) : List DemoTrade → ℕ → ℕ → ℕ → Type 0 where
  no_trades : Recount u [] 0 0 0
  of_another_user :
      {ts : List DemoTrade} {running won lost : ℕ} (t : DemoTrade)
      → same_key t.user_id u ≡ false
      → Recount u ts running won lost
      → Recount u (t ∷ ts) running won lost
  one_open :
      {ts : List DemoTrade} {running won lost : ℕ} (t : DemoTrade)
      → same_key t.user_id u ≡ true
      → t.status ≡ trade_open
      → Recount u ts running won lost
      → Recount u (t ∷ ts) (suc running) won lost
  one_won :
      {ts : List DemoTrade} {running won lost : ℕ} (t : DemoTrade)
      → same_key t.user_id u ≡ true
      → t.status ≡ trade_closed
      → HasWon t
      → Recount u ts running won lost
      → Recount u (t ∷ ts) running (suc won) lost
  one_lost :
      {ts : List DemoTrade} {running won lost : ℕ} (t : DemoTrade)
      → same_key t.user_id u ≡ true
      → t.status ≡ trade_closed
      → HasLost t
      → Recount u ts running won lost
      → Recount u (t ∷ ts) running won (suc lost)

abbrev rows_of : ℕ → List DemoTrade → List TradeRow
rows_of u ts = map row_of (keep_if (λ (t : DemoTrade). same_key t.user_id u) ts)

-- The counts with a number of lost trades that completes them.
abbrev Counts : ℕ → List DemoTrade → List TradeRow → Type 0
Counts u ts rows =
    (lost : ℕ) × Recount u ts (length (open_trades rows)) (win_count (closed_trades rows)) lost
    × (length (closed_trades rows) ≡ win_count (closed_trades rows) + lost)
    × (length rows ≡ length (open_trades rows) + length (closed_trades rows))

won-or-lost :
    (t : DemoTrade) (p : Option Decimal)
    → t.realized_pnl_usdt ≡ p
    → (b : Bool) → wins p ≡ b
    → if b then HasWon t else HasLost t
won-or-lost t none e true h = absurd (true≢false (sym h ∙ lt_irrefl (of_ℕ 0)))
won-or-lost t none e false h = not_known e
won-or-lost t (some pnl) e true h = profit pnl e h
won-or-lost t (some pnl) e false h = no_profit pnl e h

left_over : (closed won lost : ℕ) → closed ≡ won + lost → lost ≡ closed - won
left_over closed won lost e = omega arith

-- The counts once the closed trade stands before the others, won or not.
abbrev WithClosed : ℕ → DemoTrade → List DemoTrade → List TradeRow → Bool → Type 0
WithClosed u t ts rows b =
    let kept = keep_if (λ (r : TradeRow). wins r.realized_pnl_usdt) (closed_trades rows) in
    let row : TradeRow = record {
      signal_id = t.signal_id;
      status = trade_closed;
      realized_pnl_usdt = t.realized_pnl_usdt;
    } in
    let won = length (if b then row ∷ kept else kept) in
    (lost : ℕ) × Recount u (t ∷ ts) (length (open_trades rows)) won lost
    × (suc (length (closed_trades rows)) ≡ won + lost)
    × (suc (length rows) ≡ length (open_trades rows) + suc (length (closed_trades rows)))

closed-WithClosed :
    (u : ℕ) (t : DemoTrade) (ts : List DemoTrade) (rows : List TradeRow) (b : Bool)
    → wins t.realized_pnl_usdt ≡ b
    → same_key t.user_id u ≡ true
    → t.status ≡ trade_closed
    → Counts u ts rows
    → WithClosed u t ts rows b
unfolding win_count
closed-WithClosed u t ts rows true w k s (lost, counted, closed, all) = (
  lost,
  one_won t k s (won-or-lost t t.realized_pnl_usdt refl true w) counted,
  omega (arith, closed),
  omega (arith, all),
)
closed-WithClosed u t ts rows false w k s (lost, counted, closed, all) = (
  suc lost,
  one_lost t k s (won-or-lost t t.realized_pnl_usdt refl false w) counted,
  omega (arith, closed),
  omega (arith, all),
)

one_more :
    (u : ℕ) (t : DemoTrade) (ts : List DemoTrade) (rows : List TradeRow) (s : TradeStatus)
    → t.status ≡ s
    → same_key t.user_id u ≡ true
    → Counts u ts rows
    → Counts u (t ∷ ts) (
        record { signal_id = t.signal_id; status = s; realized_pnl_usdt = t.realized_pnl_usdt }
        ∷ rows)
unfolding win_count
one_more u t ts rows trade_open e k (lost, counted, closed, all) =
    (lost, one_open t k e counted, closed, omega (arith, all))
one_more u t ts rows trade_closed e k h =
    closed-WithClosed u t ts rows (wins t.realized_pnl_usdt) refl k e h

recount-step :
    (u : ℕ) (t : DemoTrade) (ts : List DemoTrade) (b : Bool)
    → same_key t.user_id u ≡ b
    → Counts u ts (rows_of u ts)
    → let kept = keep_if (λ (r : DemoTrade). same_key r.user_id u) ts in
      Counts u (t ∷ ts) (map row_of (if b then t ∷ kept else kept))
recount-step u t ts true k h = one_more u t ts (rows_of u ts) t.status refl k h
recount-step u t ts false k (lost, counted, closed, all) =
    (lost, of_another_user t k counted, closed, all)

recount : (u : ℕ) (ts : List DemoTrade) → Counts u ts (rows_of u ts)
unfolding win_count
recount u [] = (0, no_trades, refl, refl)
recount u (t ∷ ts) = recount-step u t ts (same_key t.user_id u) refl (recount u ts)

-- The counts of the statistics.
pub record Recounted (u : ℕ) (trades : List DemoTrade) (stats : DemoStats) : Type 0 where
  pub each_once : Recount u trades stats.open_count stats.closed_win_count stats.closed_loss_count
  pub closed : stats.closed_count ≡ stats.closed_win_count + stats.closed_loss_count
  pub traded : stats.signals_traded ≡ stats.open_count + stats.closed_count

-- In the statistics of a user, at any state of the tables, the counts of open, won and lost trades
-- are those of one pass over the table: each trade of the user is counted once, as open, or as won
-- where it is closed with a positive profit, or as lost where it is closed with another one or with
-- none that is known; trades of other users are not counted. The won and the lost ones add up to the
-- closed ones, and these with the open ones to the signals traded.
pub compute_demo_stats-Recounted :
    (rows : Rows) (u : ℕ) (s : Store)
    → Recounted u s.trades (compute_demo_stats (get_demo_stats rows u s))
unfolding compute_demo_stats get_demo_stats
compute_demo_stats-Recounted rows u s =
    let (lost, counted, closed, all) = recount u s.trades in
    let trades = rows_of u s.trades in
    let difference =
      left_over (length (closed_trades trades)) (win_count (closed_trades trades)) lost closed in
    record {
      each_once =
          subst
            (λ l.
              Recount u s.trades (length (open_trades trades)) (win_count (closed_trades trades)) l)
            difference counted;
      closed = closed ∙ ap (λ l. win_count (closed_trades trades) + l) difference;
      traded = all;
    }
