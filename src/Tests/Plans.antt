-- ===== src/Tests/Plans.antt =====
-- shared/signal/sizing.py and services/core_engine/risk.py on concrete requests.
use mrrik_ai_bot.Prelude.{◌≡◌, refl, List, [], ◌∷◌, none, ok, err, arith}
use mrrik_ai_bot.Decimal.{Decimal, of_ℕ, decimal, le, lt, eq, add, sub, mul, div, sum, floor}
use mrrik_ai_bot.Signal.Types.{long}
use mrrik_ai_bot.Signal.Sizing.{
  SymbolFilters, SizingResult, size_position, equal_fractions, validate_fractions,
  validate_sizing_inputs, floor_to_step, leg_quantities, size_legs, size_leg, round_price_to_tick,
  is_too_small, merge_leg,
}
use mrrik_ai_bot.Signal.Pnl.{approximate_liquidation_price}
use mrrik_ai_bot.Signal.Sizing.Accounted.{Accounted, size_position-Accounted}
use mrrik_ai_bot.Signal.Sizing.Fractions.{checked, equal_fractions-valid}
use mrrik_ai_bot.Core.Risk.{
  round_price_conservative, round_qty_down, ExecutionPlan, merged_legs_into,
}
use mrrik_ai_bot.Core.Risk.Merging.{
  MergedLegs, merge_tiny_legs, merge_loop, merge_next, is_valid_leg, settle,
}
use mrrik_ai_bot.Core.Risk.Merging.Legs.{LegsFor, merge_tiny_legs-LegsFor}
use mrrik_ai_bot.Core.Risk.Plan.{
  PlanRequest, finish_plan, plan_exits, ladder_legs, round_quantities, validate_inputs,
  build_execution_plan,
}
use mrrik_ai_bot.Core.Risk.Plan.Guards.{SafePlan, build_execution_plan-SafePlan}

abbrev filters : SymbolFilters
filters = record {
  step_size = of_ℕ 1;
  tick_size = decimal 1 1;
  min_qty = of_ℕ 2;
  min_notional = of_ℕ 5;
}

abbrev request : PlanRequest
request = record {
  side = long;
  entry = of_ℕ 10;
  stop_loss = of_ℕ 9;
  leverage = 5;
  targets = of_ℕ 11 ∷ of_ℕ 12 ∷ of_ℕ 13 ∷ [];
  margin_usdt = of_ℕ 10;
  risk_model = 1;
  model2_weights = [];
  model3_exit_roi_pct = of_ℕ 50;
  filters = filters;
  maintenance_margin_rate = decimal 5 3;
}

abbrev one : Decimal
one = decimal 1000000000000000000000000000 27

abbrev position : SizingResult
position = record {
  qty = of_ℕ 5;
  notional_usdt = of_ℕ 50;
  margin_usdt = of_ℕ 10;
  leverage = 5;
  legs =
      record {
        leg_index = 1;
        target_price = decimal 110 1;
        fraction = one;
        qty = of_ℕ 5;
        notional = decimal 550 1;
      }
      ∷ [];
  notes = record { leg = 2; into = 1 } ∷ record { leg = 3; into = 1 } ∷ [];
}

sizes : size_position (of_ℕ 10) 5 (of_ℕ 10) request.targets filters long none ≡ ok position
unfolding size_position validate_sizing_inputs equal_fractions validate_fractions floor_to_step
    leg_quantities size_legs size_leg round_price_to_tick is_too_small merge_leg le lt eq add sub
    mul div sum floor
sizes = refl

size_position-Accounted_example : Accounted 3 position.legs position.notes
size_position-Accounted_example =
    size_position-Accounted (of_ℕ 10) 5 (of_ℕ 10) request.targets filters long none position sizes

abbrev plan : ExecutionPlan
plan = record {
  margin_usdt = of_ℕ 10;
  leverage = 5;
  notional_usdt = of_ℕ 50;
  qty = of_ℕ 5;
  entry_price = decimal 100 1;
  stop_loss = decimal 90 1;
  liq_price = decimal 8050000000000000000000000000 27;
  legs = record { leg_index = 1; target_price = decimal 110 1; fraction = one; qty = of_ℕ 5 } ∷ [];
  risk_model = 1;
  model3_exit_price = none;
  notes = merged_legs_into 2 3 1 ∷ [];
}

plans : build_execution_plan request ≡ ok plan
unfolding build_execution_plan finish_plan plan_exits ladder_legs round_quantities validate_inputs
    round_price_conservative round_qty_down merge_tiny_legs merge_loop merge_next is_valid_leg
    settle equal_fractions approximate_liquidation_price le lt add sub mul div sum floor eq
plans = refl

build_execution_plan-SafePlan_example : SafePlan request plan
build_execution_plan-SafePlan_example = build_execution_plan-SafePlan request plan plans

abbrev fractions : List Decimal
fractions = decimal 4 1 ∷ decimal 3 1 ∷ decimal 3 1 ∷ []

abbrev quantities : List Decimal
quantities = of_ℕ 3 ∷ of_ℕ 1 ∷ of_ℕ 1 ∷ []

abbrev merged : MergedLegs
merged = (
  record { leg_index = 1; target_price = decimal 110 1; fraction = decimal 10 1; qty = of_ℕ 5 }
      ∷ [],
  merged_legs_into 2 3 1 ∷ [],
)

merges : merge_tiny_legs long request.targets fractions quantities filters ≡ ok merged
unfolding merge_tiny_legs merge_loop merge_next is_valid_leg settle round_price_conservative le add
    mul floor div
merges = refl

merge_tiny_legs-LegsFor_example : LegsFor 3 merged
merge_tiny_legs-LegsFor_example =
    merge_tiny_legs-LegsFor long request.targets fractions quantities filters merged (omega arith)
      merges

equal_fractions-valid_example : checked 7 ≡ ok tt
equal_fractions-valid_example = equal_fractions-valid 7 (omega arith) (omega arith)

-- Eleven equal fractions miss one by the rounding, and are refused.
eleven_refused : checked 11 ≡ err "fractions must sum exactly to 1"
unfolding equal_fractions validate_fractions le div sub mul eq sum add
eleven_refused = refl
