-- ===== src/Demo/TradeLogic/Opening.antt =====
-- services/demo_engine/trade_logic.py: `build_demo_open_plan`.
use mrrik_ai_bot.Prelude.{
  ℕ, suc, Bool, not, ◌&&◌, ◌||◌, List, [], ◌∷◌, Result, ok, err, ◌>>=◌, ◌>>◌, raise_if, ◌==◌,
  length, if◌then◌else◌,
}
use mrrik_ai_bot.Decimal.{Decimal, of_ℕ, mul, div, le}
use mrrik_ai_bot.Signal.Types.{SignalSide}
use mrrik_ai_bot.Signal.Pnl.{approximate_liquidation_price}
use mrrik_ai_bot.Signal.Sizing.{equal_fractions, model2_fractions}
use mrrik_ai_bot.Demo.TradeLogic.{DemoLegPlan, is_risk_model, model3_exit_price}

-- `fields_realism_applied` holds the three flags.
pub record Realism : Type 0 where
  pub include_commission : Bool
  pub include_funding : Bool
  pub include_slippage : Bool

pub record DemoOpenPlan : Type 0 where
  pub margin_usdt : Decimal
  pub notional_usdt : Decimal
  pub qty : Decimal
  pub liq_price : Decimal
  pub legs : List DemoLegPlan
  pub fields_realism_applied : Realism

-- `enumerate(zip(targets, fractions, strict=True), start=i)`
unfoldable pub leg_plans : ℕ → Decimal → List Decimal → List Decimal → Result (List DemoLegPlan)
leg_plans i qty [] [] = ok []
leg_plans i qty (t ∷ ts) (f ∷ fs) = do
  legs ← leg_plans (suc i) qty ts fs
  ok (record { leg_index = i; target_price = t; fraction = f; qty = mul qty f } ∷ legs)
leg_plans i qty _ _ = err "zip() arguments have different lengths"

-- The legs of the open plan, by risk model.
unfoldable pub demo_legs :
    ℕ
    → SignalSide
    → Decimal
    → ℕ
    → Decimal
    → List Decimal
    → Decimal
    → List Decimal
    → Result (List DemoLegPlan)
demo_legs risk_model side entry leverage qty targets roi_pct weights =
    if risk_model == 1
    then equal_fractions (length targets) >>= leg_plans 1 qty targets
    else if risk_model == 2
    then model2_fractions (length targets) weights >>= leg_plans 1 qty targets
    else model3_exit_price side entry leverage roi_pct >>= λ _. ok []

-- `build_demo_open_plan`
unfoldable pub build_demo_open_plan :
    SignalSide
    → Decimal
    → Decimal
    → ℕ
    → List Decimal
    → Decimal
    → ℕ
    → Decimal
    → List Decimal
    → Decimal
    → Realism
    → Result DemoOpenPlan
build_demo_open_plan side entry stop_loss leverage targets margin risk_model roi_pct weights mmr
      realism =
    do
      raise_if (le entry (of_ℕ 0)) "entry must be positive"
      raise_if (le stop_loss (of_ℕ 0)) "stop_loss must be positive"
      raise_if (leverage == 0) "leverage must be positive"
      raise_if (le margin (of_ℕ 0)) "margin_usdt must be positive"
      raise_if (not (is_risk_model risk_model)) "risk_model must be 1, 2, or 3"
      raise_if ((risk_model == 1 || risk_model == 2) && length targets == 0)
          "risk models 1 and 2 require at least one target"
      let notional = mul margin (of_ℕ leverage)
      let qty = div notional entry
      legs ← demo_legs risk_model side entry leverage qty targets roi_pct weights
      liq_price ← approximate_liquidation_price side entry leverage mmr
      ok (record {
        margin_usdt = margin;
        notional_usdt = notional;
        qty = qty;
        liq_price = liq_price;
        legs = legs;
        fields_realism_applied = realism;
      })
