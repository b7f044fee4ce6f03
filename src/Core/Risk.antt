-- ===== src/Core/Risk.antt =====
-- services/core_engine/risk.py. An `ExecutionPlanError` is an error of the result. The filters are
-- those of shared/exchange/types.py, as far as they are read here.
pub mod Merging
pub mod Plan
use mrrik_ai_bot.Prelude.{
  ℕ, zero, suc, Bool, true, false, not, ◌&&◌, ◌||◌, String, List, [], ◌∷◌, ◌++◌, Option, none, some,
  Result, ok, err, ◌>>=◌, ◌>>◌, raise_if, ◌==◌, length, any, if◌then◌else◌,
}
use mrrik_ai_bot.Decimal.{Decimal, of_ℕ, add, sub, mul, div, sum, floor, le, lt}
use mrrik_ai_bot.Signal.Types.{SignalSide, long, short}
use mrrik_ai_bot.Signal.Pnl.{approximate_liquidation_price}
use mrrik_ai_bot.Signal.Sizing.{
  SymbolFilters, round_toward, equal_fractions, model2_fractions, add_to_first,
}

pub record ExecutionLegPlan : Type 0 where
  pub leg_index : ℕ
  pub target_price : Decimal
  pub fraction : Decimal
  pub qty : Decimal

-- The notes on merged legs: `merged legs {first}-{last} into leg {into}`, without a leg to merge
-- into `merged legs {first}-{last}`, and at the end of the loop `merged leg {first} into leg {into}`.
pub data LegNote : Type 0 where
  merged_legs_into : ℕ → ℕ → ℕ → LegNote
  merged_legs : ℕ → ℕ → LegNote
  merged_leg_into : ℕ → ℕ → LegNote

pub record ExecutionPlan : Type 0 where
  pub margin_usdt : Decimal
  pub leverage : ℕ
  pub notional_usdt : Decimal
  pub qty : Decimal
  pub entry_price : Decimal
  pub stop_loss : Decimal
  pub liq_price : Decimal
  pub legs : List ExecutionLegPlan
  pub risk_model : ℕ
  pub model3_exit_price : Option Decimal
  pub notes : List LegNote

-- `round_qty_down(qty, step_size)`
unfoldable pub round_qty_down : Decimal → Decimal → Result Decimal
round_qty_down qty step_size = do
  raise_if (lt qty (of_ℕ 0)) "quantity must not be negative"
  raise_if (le step_size (of_ℕ 0)) "step size must be positive"
  ok (mul (floor (div qty step_size)) step_size)

-- `round_price_conservative(side, purpose, price, tick_size)`, where the purpose decides nothing
-- once it is one of the three.
unfoldable pub round_price_conservative : SignalSide → Decimal → Decimal → Result Decimal
round_price_conservative side price tick_size = do
  raise_if (le price (of_ℕ 0) || le tick_size (of_ℕ 0)) "price and tick size must be positive"
  ok (mul (round_toward side (div price tick_size)) tick_size)
