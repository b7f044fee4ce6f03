-- ===== src/Core/Risk/Plan.antt =====
-- services/core_engine/risk.py: `build_execution_plan` and its checks.
pub mod Guards
use mrrik_ai_bot.Prelude.{
  ℕ, zero, suc, Bool, true, false, not, ◌&&◌, ◌||◌, String, List, [], ◌∷◌, ◌++◌, Option, none, some,
  Result, ok, err, ◌>>=◌, ◌>>◌, raise_if, ◌==◌, length, any, if◌then◌else◌,
}
use mrrik_ai_bot.Decimal.{Decimal, of_ℕ, add, sub, mul, div, sum, floor, le, lt, eq}
use mrrik_ai_bot.Signal.Types.{SignalSide, long, short}
use mrrik_ai_bot.Signal.Pnl.{approximate_liquidation_price}
use mrrik_ai_bot.Signal.Sizing.{
  SymbolFilters, round_toward, equal_fractions, model2_fractions, add_to_first,
}
use mrrik_ai_bot.Core.Risk.{
  ExecutionLegPlan, LegNote, merged_legs_into, merged_legs, merged_leg_into, ExecutionPlan,
  round_qty_down, round_price_conservative,
}
use mrrik_ai_bot.Core.Risk.Merging.{MergedLegs, merge_tiny_legs}

abbrev pub is_ladder : ℕ → Bool
is_ladder risk_model = risk_model == 1 || risk_model == 2

abbrev pub stop_too_near : SignalSide → Decimal → Decimal → Bool
stop_too_near long entry stop_loss = le entry stop_loss
stop_too_near short entry stop_loss = le stop_loss entry

abbrev pub stop_message : SignalSide → String
stop_message long = "LONG stop loss must be below entry"
stop_message short = "SHORT stop loss must be above entry"

abbrev pub is_wrong_side : SignalSide → Decimal → Decimal → Bool
is_wrong_side long entry target = le target entry
is_wrong_side short entry target = le entry target

-- `_validate_inputs`
unfoldable pub validate_inputs :
    SignalSide
    → Decimal
    → Decimal
    → ℕ
    → List Decimal
    → Decimal
    → ℕ
    → SymbolFilters
    → Decimal
    → Result (Unit {0})
validate_inputs side entry stop_loss leverage targets margin risk_model filters mmr = do
  raise_if (le entry (of_ℕ 0) || le stop_loss (of_ℕ 0) || le margin (of_ℕ 0))
      "entry, stop loss, and margin must be positive"
  raise_if (leverage == 0) "leverage must be positive"
  raise_if (not (is_ladder risk_model || risk_model == 3)) "risk model must be 1, 2, or 3"
  raise_if (is_ladder risk_model && length targets == 0) "risk models 1 and 2 require targets"
  raise_if (le filters.step_size (of_ℕ 0) || le filters.tick_size (of_ℕ 0))
      "exchange filters must be positive"
  raise_if (lt filters.min_qty (of_ℕ 0) || lt filters.min_notional (of_ℕ 0))
      "exchange minimums must not be negative"
  raise_if (lt mmr (of_ℕ 0)) "maintenance margin rate must not be negative"
  raise_if (stop_too_near side entry stop_loss) (stop_message side)
  raise_if (is_ladder risk_model && any (is_wrong_side side entry) targets)
      "target is on the wrong side of entry"

unfoldable pub round_quantities : Decimal → Decimal → List Decimal → Result (List Decimal)
round_quantities qty step_size [] = ok []
round_quantities qty step_size (f ∷ fs) = do
  q ← round_qty_down (mul qty f) step_size
  qs ← round_quantities qty step_size fs
  ok (q ∷ qs)

-- The legs and the notes under models 1 and 2.
unfoldable pub ladder_legs :
    SignalSide → List Decimal → ℕ → List Decimal → SymbolFilters → Decimal → Result MergedLegs
ladder_legs side targets risk_model model2_weights filters qty = do
  fractions ←
      if risk_model == 1
      then equal_fractions (length targets)
      else model2_fractions (length targets) model2_weights
  quantities ← round_quantities qty filters.step_size fractions
  merge_tiny_legs side targets fractions (add_to_first (sub qty (sum quantities)) quantities)
      filters

abbrev pub raw_exit : SignalSide → Decimal → Decimal → Decimal
raw_exit long entry_price move = mul entry_price (add (of_ℕ 1) move)
raw_exit short entry_price move = mul entry_price (sub (of_ℕ 1) move)

-- The exit price under model 3.
unfoldable pub model3_exit : SignalSide → Decimal → ℕ → Decimal → SymbolFilters → Result Decimal
model3_exit side entry_price leverage model3_exit_roi_pct filters = do
  raise_if (le model3_exit_roi_pct (of_ℕ 0)) "model 3 exit ROI must be positive"
  let move = div model3_exit_roi_pct (mul (of_ℕ 100) (of_ℕ leverage))
  round_price_conservative side (raw_exit side entry_price move) filters.tick_size

-- The part of the plan that depends on the risk model: legs, exit price and notes.
pub record Exits : Type 0 where
  pub legs : List ExecutionLegPlan
  pub model3_exit_price : Option Decimal
  pub notes : List LegNote

abbrev pub model3_exits : Decimal → Exits
model3_exits price = record { legs = []; model3_exit_price = some price; notes = [] }

abbrev pub ladder_exits : MergedLegs → Exits
ladder_exits merged = record { legs = merged.0; model3_exit_price = none; notes = merged.1 }

-- The arguments of `build_execution_plan`
pub record PlanRequest : Type 0 where
  pub side : SignalSide
  pub entry : Decimal
  pub stop_loss : Decimal
  pub leverage : ℕ
  pub targets : List Decimal
  pub margin_usdt : Decimal
  pub risk_model : ℕ
  pub model2_weights : List Decimal
  pub model3_exit_roi_pct : Decimal
  pub filters : SymbolFilters
  pub maintenance_margin_rate : Decimal

unfoldable pub plan_exits : PlanRequest → Decimal → Decimal → Result Exits
plan_exits r entry_price qty =
    if r.risk_model == 3
    then (model3_exit r.side entry_price r.leverage r.model3_exit_roi_pct r.filters >>= λ price.
        ok (model3_exits price))
    else ladder_legs r.side r.targets r.risk_model r.model2_weights r.filters qty >>= λ merged.
        ok (ladder_exits merged)

abbrev pub validate_request : PlanRequest → Result (Unit {0})
validate_request r =
    validate_inputs r.side r.entry r.stop_loss r.leverage r.targets r.margin_usdt r.risk_model
      r.filters r.maintenance_margin_rate

-- The rest of `build_execution_plan`, once the prices and the quantity are rounded.
unfoldable pub finish_plan : PlanRequest → Decimal → Decimal → Decimal → Result ExecutionPlan
finish_plan r entry_price rounded_stop qty = do
  raise_if (lt qty r.filters.min_qty || le qty (of_ℕ 0)) "total quantity is below minQty"
  raise_if (lt (mul qty entry_price) r.filters.min_notional) "total notional is below minNotional"
  liq_price ← approximate_liquidation_price r.side entry_price r.leverage r.maintenance_margin_rate
  exits ← plan_exits r entry_price qty
  ok (record {
    margin_usdt = r.margin_usdt;
    leverage = r.leverage;
    notional_usdt = mul r.margin_usdt (of_ℕ r.leverage);
    qty = qty;
    entry_price = entry_price;
    stop_loss = rounded_stop;
    liq_price = liq_price;
    legs = exits.legs;
    risk_model = r.risk_model;
    model3_exit_price = exits.model3_exit_price;
    notes = exits.notes;
  })

-- The message that stands for the exception `decimal.DivisionByZero`, raised where the entry is
-- rounded to zero. It is no `ExecutionPlanError` and no `ValueError`.
abbrev pub division_by_zero : String
division_by_zero = "DivisionByZero"

-- `build_execution_plan`
unfoldable pub build_execution_plan : PlanRequest → Result ExecutionPlan
build_execution_plan r = do
  validate_request r
  entry_price ← round_price_conservative r.side r.entry r.filters.tick_size
  rounded_stop ← round_price_conservative r.side r.stop_loss r.filters.tick_size
  let notional = mul r.margin_usdt (of_ℕ r.leverage)
  raise_if (eq entry_price (of_ℕ 0)) division_by_zero
  qty ← round_qty_down (div notional entry_price) r.filters.step_size
  finish_plan r entry_price rounded_stop qty
