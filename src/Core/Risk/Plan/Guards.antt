-- ===== src/Core/Risk/Plan/Guards.antt =====
-- services/core_engine/risk.py: what a plan that was built is safe to do.
use mrrik_ai_bot.Prelude.{
  suc, ◌≡◌, ◌≢◌, ◌<◌, refl, Bool, true, false, not, ◌&&◌, ◌||◌, List, [], ◌∷◌, Option, none, ok,
  raise_if, raise_if-passed, ◌==◌, ==→eq, not-==→≢, arith, length, any, All, if◌then◌else◌, Returns,
  Returns-intro, Returns-elim, >>=-Returns, ok-Returns, if-Returns,
}
use mrrik_ai_bot.Decimal.{Decimal, of_ℕ, mul, div, le, lt, eq}
use mrrik_ai_bot.Decimal.Order.{le_total}
use mrrik_ai_bot.Signal.Pnl.{approximate_liquidation_price}
use mrrik_ai_bot.Signal.Sizing.{equal_fractions, model2_fractions}
use mrrik_ai_bot.Core.Risk.{
  ExecutionPlan, ExecutionLegPlan, round_price_conservative, round_qty_down,
}
use mrrik_ai_bot.Core.Risk.Merging.Legs.{Numbered, LegsFor, merge_tiny_legs-LegsFor}
use mrrik_ai_bot.Core.Risk.Plan.{
  PlanRequest, Exits, is_ladder, stop_too_near, is_wrong_side, validate_inputs, validate_request,
  ladder_legs, model3_exit, plan_exits, round_quantities, finish_plan, build_execution_plan,
}

-- The request passes the checks that decide which side of the entry the prices are on.
pub record RightSides (r : PlanRequest) : Type 0 where
  pub stop_beyond : stop_too_near r.side r.entry r.stop_loss ≡ false
  pub targets_beyond :
      is_ladder r.risk_model ≡ true → All (λ t. is_wrong_side r.side r.entry t ≡ false) r.targets
  pub some_target : is_ladder r.risk_model ≡ true → 0 < length r.targets
  pub model : r.risk_model ≢ 3 → is_ladder r.risk_model ≡ true

none_step :
    (p : Decimal → Bool) (x : Decimal) (xs : List Decimal) (b : Bool)
    → p x ≡ b
    → (any p xs ≡ false → All (λ y. p y ≡ false) xs)
    → (b || any p xs) ≡ false
    → (p x ≡ false) × All (λ y. p y ≡ false) xs
none_step p x xs true e rest h = cc
none_step p x xs false e rest h = (e, rest h)

none_of : (p : Decimal → Bool) (xs : List Decimal) → any p xs ≡ false → All (λ x. p x ≡ false) xs
none_of p [] h = tt
none_of p (x ∷ xs) h = none_step p x xs (p x) refl (none_of p xs) h

-- The three checks that the sides hang on, of the nine.
validate_inputs-passed :
    (r : PlanRequest)
    → validate_request r ≡ ok tt
    → (not (is_ladder r.risk_model || r.risk_model == 3) ≡ false)
      × ((is_ladder r.risk_model && length r.targets == 0) ≡ false)
      × (stop_too_near r.side r.entry r.stop_loss ≡ false)
      × ((is_ladder r.risk_model && any (is_wrong_side r.side r.entry) r.targets) ≡ false)
unfolding validate_inputs
validate_inputs-passed r e = ground arith

ladder_targets :
    (r : PlanRequest) (b : Bool)
    → is_ladder r.risk_model ≡ true
    → (is_ladder r.risk_model && b) ≡ false
    → b ≡ false
ladder_targets r true m h = ground arith
ladder_targets r false m h = refl

validate_request-RightSides : (r : PlanRequest) → validate_request r ≡ ok tt → RightSides r
validate_request-RightSides r e =
    let (model, some_target, stop, targets) = validate_inputs-passed r e in
    record {
      stop_beyond = stop;
      targets_beyond = λ m. none_of _ r.targets (ladder_targets r _ m targets);
      some_target = λ m. omega (arith, not-==→≢ _ _ (ladder_targets r _ m some_target));
      model = λ other. ground (arith, model, other);
    }

-- What the plan leaves the position with: legs in the order of the targets, or the exit price of
-- model 3 alone.
abbrev pub ExitsOf : PlanRequest → List ExecutionLegPlan → Option Decimal → Type 0
ExitsOf r legs price =
    (r.risk_model ≡ 3 → (legs ≡ []) × (price ≢ none))
    × (r.risk_model ≢ 3 → Numbered (suc (length r.targets)) legs × (legs ≢ []) × (price ≡ none))

pub record SafePlan (r : PlanRequest) (plan : ExecutionPlan) : Type 0 where
  pub sides : RightSides r
  pub exits : ExitsOf r plan.legs plan.model3_exit_price
  pub enough : le r.filters.min_qty plan.qty ≡ true
  pub positive : lt (of_ℕ 0) plan.qty ≡ true
  pub worth : le r.filters.min_notional (mul plan.qty plan.entry_price) ≡ true

ladder_legs-LegsFor :
    (r : PlanRequest) (qty : Decimal)
    → 0 < length r.targets
    → Returns
        (LegsFor (length r.targets))
        (ladder_legs r.side r.targets r.risk_model r.model2_weights r.filters qty)
unfolding ladder_legs
ladder_legs-LegsFor r qty pos =
    >>=-Returns (LegsFor _)
      (if r.risk_model == 1
        then equal_fractions (length r.targets)
        else model2_fractions (length r.targets) r.model2_weights)
      _
      λ fractions _.
        >>=-Returns (LegsFor _) (round_quantities qty r.filters.step_size fractions) _
          λ quantities _.
            Returns-intro (LegsFor _) _ λ merged e.
              merge_tiny_legs-LegsFor r.side r.targets fractions _ r.filters merged pos e

abbrev ExitsFor : PlanRequest → Exits → Type 0
ExitsFor r exits = ExitsOf r exits.legs exits.model3_exit_price

plan_exits-ExitsFor :
    (r : PlanRequest) (entry_price qty : Decimal)
    → RightSides r
    → Returns (ExitsFor r) (plan_exits r entry_price qty)
unfolding plan_exits
plan_exits-ExitsFor r entry_price qty sides =
    if-Returns (ExitsFor r) (r.risk_model == 3) _ _
      (λ m.
        >>=-Returns (ExitsFor r)
          (model3_exit r.side entry_price r.leverage r.model3_exit_roi_pct r.filters) _
          λ price _.
            ok-Returns (ExitsFor r) ((λ _. (refl, λ e. cc)), λ other. absurd (other (==→eq _ _ m))))
      λ m.
        >>=-Returns (ExitsFor r)
          (ladder_legs r.side r.targets r.risk_model r.model2_weights r.filters qty) _
          λ merged made.
            let (numbered, full) =
              Returns-elim (LegsFor (length r.targets)) _ merged
                (ladder_legs-LegsFor r qty (sides.some_target (sides.model (not-==→≢ _ _ m))))
                made in
            ok-Returns (ExitsFor r) ((λ e. absurd (not-==→≢ _ _ m e)), λ _. (numbered, full, refl))

-- The quantity of a plan is worth trading.
enough_of :
    (qty min_qty : Decimal)
    → (lt qty min_qty || le qty (of_ℕ 0)) ≡ false
    → (le min_qty qty ≡ true) × (lt (of_ℕ 0) qty ≡ true)
unfolding lt
enough_of qty min_qty h = ground (arith, le_total qty min_qty)

worth_of :
    (value min_notional : Decimal) → lt value min_notional ≡ false → le min_notional value ≡ true
unfolding lt
worth_of value min_notional h = ground arith

finish_plan-SafePlan :
    (r : PlanRequest) (entry_price stop qty : Decimal)
    → RightSides r
    → Returns (SafePlan r) (finish_plan r entry_price stop qty)
unfolding finish_plan
finish_plan-SafePlan r entry_price stop qty sides =
    >>=-Returns (SafePlan r)
      (raise_if (lt qty r.filters.min_qty || le qty (of_ℕ 0)) "total quantity is below minQty") _
      λ _ large.
        >>=-Returns (SafePlan r)
          (raise_if (lt (mul qty entry_price) r.filters.min_notional)
            "total notional is below minNotional")
          _
          λ _ worth.
            >>=-Returns (SafePlan r)
              (approximate_liquidation_price r.side entry_price r.leverage
                r.maintenance_margin_rate)
              _
              λ liq_price _. >>=-Returns (SafePlan r) (plan_exits r entry_price qty) _ λ exits made.
                let (enough, positive) =
                  enough_of qty r.filters.min_qty (raise_if-passed _ _ _ large) in
                ok-Returns (SafePlan r) (record {
                  sides = sides;
                  exits =
                      Returns-elim (ExitsFor r) _ exits
                        (plan_exits-ExitsFor r entry_price qty sides) made;
                  enough = enough;
                  positive = positive;
                  worth = worth_of _ _ (raise_if-passed _ _ _ worth);
                })

-- A plan is built only for a request whose stop loss and, under models 1 and 2, whose targets are
-- on the right side of the entry. It trades at least the exchange's minimum quantity and notional,
-- and more than nothing. Under model 3 it has an exit price and no legs; under models 1 and 2 it
-- has at least one leg, no exit price, and legs in the order of the targets under indices of
-- their own.
pub build_execution_plan-SafePlan :
    (r : PlanRequest) (plan : ExecutionPlan) → build_execution_plan r ≡ ok plan → SafePlan r plan
unfolding build_execution_plan
build_execution_plan-SafePlan r plan e =
    Returns-elim (SafePlan r) (build_execution_plan r) plan
      (>>=-Returns (SafePlan r) (validate_request r) _ λ _ valid.
        >>=-Returns (SafePlan r) (round_price_conservative r.side r.entry r.filters.tick_size) _
          λ entry_price _.
            >>=-Returns (SafePlan r)
              (round_price_conservative r.side r.stop_loss r.filters.tick_size) _
              λ stop _. >>=-Returns (SafePlan r) (raise_if (eq entry_price (of_ℕ 0)) _) _ λ _ _.
                >>=-Returns (SafePlan r)
                  (round_qty_down (div (mul r.margin_usdt (of_ℕ r.leverage)) entry_price)
                    r.filters.step_size)
                  _
                  λ qty _.
                    finish_plan-SafePlan r entry_price stop qty
                      (validate_request-RightSides r valid))
      e
