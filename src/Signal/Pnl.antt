-- ===== src/Signal/Pnl.antt =====
-- shared/signal/pnl.py
use mrrik_ai_bot.Prelude.{ℕ, Bool, Result, ok, ◌>>=◌, ◌>>◌, raise_if, ◌==◌, not, ◌&&◌}
use mrrik_ai_bot.Decimal.{Decimal, of_ℕ, le, lt, sub, mul, div, add, neg}
use mrrik_ai_bot.Signal.Types.{SignalSide, long, short}

-- `_require_positive_leverage`
abbrev pub require_positive_leverage : ℕ → Result (Unit {0})
require_positive_leverage leverage = raise_if (leverage == 0) "leverage must be positive"

abbrev pub side_move : SignalSide → Decimal → Decimal → Decimal
side_move long entry price = div (sub price entry) entry
side_move short entry price = div (sub entry price) entry

unfoldable pub signed_move_fraction : SignalSide → Decimal → Decimal → Result Decimal
signed_move_fraction side entry price = do
  raise_if (le entry (of_ℕ 0)) "entry must be positive"
  ok (side_move side entry price)

unfoldable pub roi_percent_on_margin : SignalSide → Decimal → Decimal → ℕ → Result Decimal
unfolding signed_move_fraction
roi_percent_on_margin side entry price leverage = do
  require_positive_leverage leverage
  move ← signed_move_fraction side entry price
  ok (mul (mul move (of_ℕ leverage)) (of_ℕ 100))

-- `pnl_usdt_for_fraction(margin_usdt, position_fraction, side, entry, price, leverage)`
unfoldable pub pnl_usdt_for_fraction :
    Decimal → Decimal → SignalSide → Decimal → Decimal → ℕ → Result Decimal
unfolding signed_move_fraction
pnl_usdt_for_fraction margin position_fraction side entry price leverage = do
  raise_if (lt margin (of_ℕ 0)) "margin_usdt must not be negative"
  raise_if (not (le (of_ℕ 0) position_fraction && le position_fraction (of_ℕ 1)))
      "position_fraction must be between zero and one"
  require_positive_leverage leverage
  move ← signed_move_fraction side entry price
  ok (mul (mul (mul margin position_fraction) move) (of_ℕ leverage))

abbrev pub liquidation_at : SignalSide → Decimal → Decimal → Decimal
liquidation_at long entry move = mul entry (sub (of_ℕ 1) move)
liquidation_at short entry move = mul entry (add (of_ℕ 1) move)

-- `approximate_liquidation_price(side, entry, leverage, maintenance_margin_rate)`
unfoldable pub approximate_liquidation_price : SignalSide → Decimal → ℕ → Decimal → Result Decimal
approximate_liquidation_price side entry leverage maintenance_margin_rate = do
  raise_if (le entry (of_ℕ 0)) "entry must be positive"
  require_positive_leverage leverage
  raise_if (lt maintenance_margin_rate (of_ℕ 0)) "maintenance_margin_rate must not be negative"
  ok (liquidation_at side entry (sub (div (of_ℕ 1) (of_ℕ leverage)) maintenance_margin_rate))

-- `liquidation_happens_before_stop(side, entry, stop_loss, leverage, maintenance_margin_rate)`
abbrev pub reached_before : SignalSide → Decimal → Decimal → Bool
reached_before long stop_loss price = lt stop_loss price
reached_before short stop_loss price = lt price stop_loss

unfoldable pub liquidation_happens_before_stop :
    SignalSide → Decimal → Decimal → ℕ → Decimal → Result Bool
unfolding approximate_liquidation_price
liquidation_happens_before_stop side entry stop_loss leverage maintenance_margin_rate = do
  price ← approximate_liquidation_price side entry leverage maintenance_margin_rate
  ok (reached_before side stop_loss price)

unfoldable pub capped_loss_usdt_on_liquidation : Decimal → Result Decimal
capped_loss_usdt_on_liquidation margin = do
  raise_if (lt margin (of_ℕ 0)) "margin_usdt must not be negative"
  ok (neg margin)
