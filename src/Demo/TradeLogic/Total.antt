-- ===== src/Demo/TradeLogic/Total.antt =====
-- services/demo_engine/trade_logic.py: a tick of a valid trade raises nothing.
use mrrik_ai_bot.Prelude.{
  ℕ, ◌≡◌, refl, Bool, true, false, not, ◌&&◌, String, ap, List, [], ◌∷◌, Option, none, some, Result,
  ok, ◌>>=◌, raise_if, ◌==◌, arith, All, >>=-total, if-holds,
}
use mrrik_ai_bot.Prelude.Sets.{elem, sorted_set}
use mrrik_ai_bot.Decimal.{Decimal, of_ℕ, le, lt, add, mul}
use mrrik_ai_bot.Decimal.Order.{le_total}
use mrrik_ai_bot.Signal.Types.{SignalSide}
use mrrik_ai_bot.Signal.Pnl.{
  side_move, pnl_usdt_for_fraction, signed_move_fraction, capped_loss_usdt_on_liquidation,
}
use mrrik_ai_bot.Demo.TradeLogic.{
  OpenTrade, DemoLegPlan, is_risk_model, exit_of, blended_from, blended_pnl, whole_pnl,
  model3_exit_price, evaluate_stop, evaluate_model3, evaluate_targets, evaluate_ladder, liquidated,
  evaluate_price_tick, active_stop, all_touched, crosses_stop_loss, crosses_take_profit,
  crosses_liquidation,
}

abbrev pub Returned : {A : Type 0} → Result A → Type 0
Returned {A} r = (a : A) × (r ≡ ok a)

-- A trade as the demo engine keeps it.
pub record IsValid (trade : OpenTrade) : Type 0 where
  pub entry_positive : le trade.entry (of_ℕ 0) ≡ false
  pub leverage_positive : (trade.leverage == 0) ≡ false
  pub margin_positive : le trade.margin_usdt (of_ℕ 0) ≡ false
  pub rate_not_negative : lt trade.maintenance_margin_rate (of_ℕ 0) ≡ false
  pub model : is_risk_model trade.risk_model ≡ true
  pub roi_positive : le trade.model3_exit_roi_pct (of_ℕ 0) ≡ false
  pub shares :
      All
        (λ (leg : DemoLegPlan). (le (of_ℕ 0) leg.fraction && le leg.fraction (of_ℕ 1)) ≡ true)
        trade.open_legs

not_negative : (x : Decimal) → le x (of_ℕ 0) ≡ false → lt x (of_ℕ 0) ≡ false
unfolding lt
not_negative x h = ground (arith, le_total x (of_ℕ 0))

pnl-Returned :
    (margin fraction : Decimal) (side : SignalSide) (entry price : Decimal) (leverage : ℕ)
    → lt margin (of_ℕ 0) ≡ false
    → (le (of_ℕ 0) fraction && le fraction (of_ℕ 1)) ≡ true
    → (leverage == 0) ≡ false
    → le entry (of_ℕ 0) ≡ false
    → Returned (pnl_usdt_for_fraction margin fraction side entry price leverage)
unfolding pnl_usdt_for_fraction signed_move_fraction
pnl-Returned margin fraction side entry price leverage m f l e =
    (mul (mul (mul margin fraction) (side_move side entry price)) (of_ℕ leverage), ground arith)

passed : (b : Bool) (e : String) → b ≡ false → Returned (raise_if b e)
passed false e h = (tt, refl)
passed true e h = cc

one_is_share : (le (of_ℕ 0) (of_ℕ 1) && le (of_ℕ 1) (of_ℕ 1)) ≡ true
unfolding le
one_is_share = refl

module _ (trade : OpenTrade) (v : IsValid trade) where
  share-Returned :
      (fraction price : Decimal)
      → (le (of_ℕ 0) fraction && le fraction (of_ℕ 1)) ≡ true
      → Returned (
          pnl_usdt_for_fraction trade.margin_usdt fraction trade.side trade.entry price
            trade.leverage)
  share-Returned fraction price f =
      pnl-Returned trade.margin_usdt fraction trade.side trade.entry price trade.leverage
        (not_negative _ v.margin_positive) f v.leverage_positive v.entry_positive

  abbrev Blends : List ℕ → Option Decimal → List DemoLegPlan → Type 0
  Blends touched remaining legs =
      (pnl : Decimal) → Returned (blended_from trade touched remaining pnl legs)

  leg-Returned :
      (touched : List ℕ) (remaining exit : Option Decimal) (pnl : Decimal) (leg : DemoLegPlan)
      (legs : List DemoLegPlan)
      → (le (of_ℕ 0) leg.fraction && le leg.fraction (of_ℕ 1)) ≡ true
      → Blends touched remaining legs
      → Returned (elim exit [
        | none ↦ blended_from trade touched remaining pnl legs
        | some price ↦
            pnl_usdt_for_fraction trade.margin_usdt leg.fraction trade.side trade.entry price
              trade.leverage
            >>= λ share. blended_from trade touched remaining (add pnl share) legs
      ])
  leg-Returned touched remaining none pnl leg legs f rest = rest pnl
  leg-Returned touched remaining (some price) pnl leg legs f rest =
      >>=-total _ _ (share-Returned leg.fraction price f) λ share. rest (add pnl share)

  blended_from-Returned :
      (touched : List ℕ) (remaining : Option Decimal) (legs : List DemoLegPlan)
      → All
          (λ (leg : DemoLegPlan). (le (of_ℕ 0) leg.fraction && le leg.fraction (of_ℕ 1)) ≡ true)
          legs
      → Blends touched remaining legs
  unfolding blended_from
  blended_from-Returned touched remaining [] h pnl = (pnl, refl)
  blended_from-Returned touched remaining (leg ∷ legs) h pnl =
      leg-Returned touched remaining
        (exit_of (elem leg.leg_index touched) leg.target_price remaining) pnl leg legs h.0
        (blended_from-Returned touched remaining legs h.1)

  blended_pnl-Returned :
      (touched : List ℕ) (remaining : Option Decimal)
      → Returned (blended_pnl trade touched remaining)
  blended_pnl-Returned touched remaining =
      blended_from-Returned touched remaining trade.open_legs v.shares (of_ℕ 0)

  evaluate_stop-Returned :
      (price : Decimal) (known : List ℕ) → Returned (evaluate_stop trade price known)
  unfolding evaluate_stop
  evaluate_stop-Returned price known =
      if-holds Returned (crosses_stop_loss trade.side price (active_stop trade known)) _ _
        (λ _.
          >>=-total (whole_pnl trade (active_stop trade known)) _
            (share-Returned (of_ℕ 1) (active_stop trade known) one_is_share) λ pnl. (_, refl))
        λ _. (_, refl)

  model3_exit_price-Returned :
      Returned (model3_exit_price trade.side trade.entry trade.leverage trade.model3_exit_roi_pct)
  unfolding model3_exit_price
  model3_exit_price-Returned = >>=-total _ _ (passed _ _ v.entry_positive) λ _.
      >>=-total _ _ (passed _ _ v.leverage_positive)
        λ _. >>=-total _ _ (passed _ _ v.roi_positive) λ _. (_, refl)

  evaluate_model3-Returned :
      (price : Decimal) (known : List ℕ) → Returned (evaluate_model3 trade price known)
  unfolding evaluate_model3
  evaluate_model3-Returned price known =
      >>=-total (model3_exit_price trade.side trade.entry trade.leverage trade.model3_exit_roi_pct)
        _ model3_exit_price-Returned
        λ threshold.
          if-holds Returned (crosses_take_profit trade.side price threshold) _ _
            (λ _.
              >>=-total (whole_pnl trade threshold) _
                (share-Returned (of_ℕ 1) threshold one_is_share) λ pnl. (_, refl))
            λ _. evaluate_stop-Returned price known

  evaluate_targets-Returned :
      (price : Decimal) (filled touched : List ℕ)
      → Returned (evaluate_targets trade price filled touched)
  unfolding evaluate_targets
  evaluate_targets-Returned price filled touched =
      if-holds Returned (all_touched trade.open_legs touched) _ _
        (λ _.
          >>=-total (blended_pnl trade touched none) _ (blended_pnl-Returned touched none)
            λ pnl. (_, refl))
        λ _.
          if-holds Returned (crosses_stop_loss trade.side price (active_stop trade touched)) _ _
            (λ _.
              >>=-total (blended_pnl trade touched (some (active_stop trade touched))) _
                (blended_pnl-Returned touched (some (active_stop trade touched))) λ pnl. (_, refl))
            λ _. (_, refl)

  liquidated-Returned : (known : List ℕ) → Returned (liquidated trade known)
  unfolding liquidated capped_loss_usdt_on_liquidation
  liquidated-Returned known =
      >>=-total (capped_loss_usdt_on_liquidation trade.margin_usdt) _
        (>>=-total _ _ (passed _ _ (not_negative _ v.margin_positive)) λ _. (_, refl))
        λ loss. (_, refl)

  -- A tick of a valid trade raises nothing, whatever the price is: it returns a decision.
  pub evaluate_price_tick-Returned : (price : Decimal) → Returned (evaluate_price_tick trade price)
  unfolding evaluate_price_tick evaluate_ladder
  evaluate_price_tick-Returned price = >>=-total _ _ (passed _ _ v.rate_not_negative) λ _.
      >>=-total _ _ (passed _ _ v.margin_positive) λ _.
        >>=-total _ _ (passed _ _ (ap not v.model)) λ _.
          if-holds Returned (crosses_liquidation trade.side price trade.liq_price) _ _
            (λ _. liquidated-Returned (sorted_set trade.touched_tps))
            λ _.
              if-holds Returned (trade.risk_model == 3) _ _
                (λ _. evaluate_model3-Returned price (sorted_set trade.touched_tps))
                λ _. evaluate_targets-Returned price _ _
