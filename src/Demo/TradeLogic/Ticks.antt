-- ===== src/Demo/TradeLogic/Ticks.antt =====
-- services/demo_engine/trade_logic.py: what a tick decides, and why.
use mrrik_ai_bot.Prelude.{
  ℕ, ◌≡◌, ◌≢◌, refl, sym, subst, ok-injective, ◌∙◌, Bool, true, false, not, List, [], none, some,
  Result, ok, raise_if, ◌==◌, ==→eq, not-==→≢, true≢false, Returns-map, if◌then◌else◌, Returns,
  >>=-Returns, ok-Returns, if-Returns, Returns-elim,
}
use mrrik_ai_bot.Prelude.Sets.{sorted_set}
use mrrik_ai_bot.Decimal.{Decimal, of_ℕ, le, lt, eq, neg}
use mrrik_ai_bot.Signal.Pnl.{capped_loss_usdt_on_liquidation}
use mrrik_ai_bot.Demo.TradeLogic.{
  OpenTrade, DemoCloseDecision, model3_exit, all_tp, be, sl, crosses_take_profit, crosses_stop_loss,
  crosses_liquidation, active_stop, stop_reason, whole_pnl, model3_exit_price, all_touched,
  blended_pnl, closed_decision, evaluate_stop, evaluate_model3, evaluate_targets, evaluate_ladder,
  liquidated, liquidation_decision, evaluate_price_tick, is_risk_model,
}
use mrrik_ai_bot.Demo.TradeLogic.Decided.{
  Touched, Why, Threshold, StaysOpen, Fills, model3-Fills, ladder-Fills, newly_filled-Updated,
  Decided, Liquidated, capped_loss-neg, known-Touched, updated-Touched,
}

module _ (trade : OpenTrade) (price : Decimal) where
  stop-Why :
      (touched : List ℕ) (b : Bool)
      → crosses_stop_loss trade.side price (active_stop trade touched) ≡ true
      → eq (active_stop trade touched) trade.entry ≡ b
      → Why trade price touched (if b then be else sl) (active_stop trade touched)
  stop-Why touched true e f = ((e, refl), f)
  stop-Why touched false e f = ((e, refl), f)

  stop-Decided :
      (touched filled : List ℕ) (pnl : Decimal)
      → Touched trade price touched
      → Fills trade price touched filled
      → crosses_stop_loss trade.side price (active_stop trade touched) ≡ true
      → let stop = active_stop trade touched in
        Decided trade price
          (closed_decision (stop_reason trade stop) stop pnl trade.margin_usdt touched filled)
  unfolding closed_decision
  stop-Decided touched filled pnl t f e = record {
    touched = t;
    fills = f;
    justified = stop-Why touched _ e refl;
  }

  model3-Decided :
      (known : List ℕ) (threshold pnl : Decimal)
      → Touched trade price known
      → trade.risk_model ≡ 3
      → Threshold trade threshold
      → crosses_take_profit trade.side price threshold ≡ true
      → Decided trade price (closed_decision model3_exit threshold pnl trade.margin_usdt known [])
  unfolding closed_decision
  model3-Decided known threshold pnl t model exit e = record {
    touched = t;
    fills = model3-Fills trade price known model;
    justified = (model, exit, e);
  }

  all_tp-Decided :
      (touched filled : List ℕ) (pnl : Decimal)
      → Touched trade price touched
      → Fills trade price touched filled
      → trade.risk_model ≢ 3
      → all_touched trade.open_legs touched ≡ true
      → Decided trade price (closed_decision all_tp price pnl trade.margin_usdt touched filled)
  unfolding closed_decision
  all_tp-Decided touched filled pnl t f model e = record {
    touched = t;
    fills = f;
    justified = (model, e, refl);
  }

  model3-StaysOpen :
      (known : List ℕ) (threshold : Decimal)
      → trade.risk_model ≡ 3
      → Threshold trade threshold
      → crosses_take_profit trade.side price threshold ≡ false
      → crosses_stop_loss trade.side price (active_stop trade known) ≡ false
      → StaysOpen trade price known
  model3-StaysOpen known threshold model exit below e = record {
    above_stop = e;
    below_exit = λ _ other made.
        subst (λ x. crosses_take_profit trade.side price x ≡ false) (ok-injective (sym exit ∙ made))
          below;
    legs_left = λ other. absurd (other model);
  }

  evaluate_stop-Decided :
      (known : List ℕ) (threshold : Decimal)
      → Touched trade price known
      → trade.risk_model ≡ 3
      → Threshold trade threshold
      → crosses_take_profit trade.side price threshold ≡ false
      → Returns (Decided trade price) (evaluate_stop trade price known)
  unfolding evaluate_stop
  evaluate_stop-Decided known threshold t model exit below =
      if-Returns (Decided trade price) (crosses_stop_loss trade.side price _) _ _
        (λ e.
          >>=-Returns (Decided trade price) (whole_pnl trade (active_stop trade known)) _ λ pnl _.
            ok-Returns (Decided trade price)
              (stop-Decided known [] pnl t (model3-Fills trade price known model) e))
        λ e. ok-Returns (Decided trade price) (record {
          touched = t;
          fills = model3-Fills trade price known model;
          justified = model3-StaysOpen known threshold model exit below e;
        })

  evaluate_model3-Decided :
      (known : List ℕ)
      → trade.risk_model ≡ 3
      → Touched trade price known
      → Returns (Decided trade price) (evaluate_model3 trade price known)
  unfolding evaluate_model3
  evaluate_model3-Decided known model t =
      >>=-Returns (Decided trade price)
        (model3_exit_price trade.side trade.entry trade.leverage trade.model3_exit_roi_pct) _
        λ threshold exit.
          if-Returns (Decided trade price) (crosses_take_profit trade.side price threshold) _ _
            (λ e. >>=-Returns (Decided trade price) (whole_pnl trade threshold) _ λ pnl _.
              ok-Returns (Decided trade price) (model3-Decided known threshold pnl t model exit e))
            λ e. evaluate_stop-Decided known threshold t model exit e

  evaluate_targets-Decided :
      (filled touched : List ℕ)
      → trade.risk_model ≢ 3
      → Touched trade price touched
      → Fills trade price touched filled
      → Returns (Decided trade price) (evaluate_targets trade price filled touched)
  unfolding evaluate_targets
  evaluate_targets-Decided filled touched model t f =
      if-Returns (Decided trade price) (all_touched trade.open_legs touched) _ _
        (λ e.
          >>=-Returns (Decided trade price) (blended_pnl trade touched none) _ λ pnl _.
            ok-Returns (Decided trade price) (all_tp-Decided touched filled pnl t f model e))
        λ left.
          if-Returns (Decided trade price) (crosses_stop_loss trade.side price _) _ _
            (λ e.
              >>=-Returns (Decided trade price)
                (blended_pnl trade touched (some (active_stop trade touched))) _
                λ pnl _. ok-Returns (Decided trade price) (stop-Decided touched filled pnl t f e))
            λ e. ok-Returns (Decided trade price) (record {
              touched = t;
              fills = f;
              justified = record {
                above_stop = e;
                below_exit = λ m. absurd (model m);
                legs_left = λ _. left;
              };
            })

  evaluate_ladder-Decided :
      trade.risk_model ≢ 3
      → Returns (Decided trade price) (evaluate_ladder trade price (sorted_set trade.touched_tps))
  unfolding evaluate_ladder
  evaluate_ladder-Decided model =
      evaluate_targets-Decided _ _ model (updated-Touched trade price)
        (ladder-Fills trade price _ _ model (newly_filled-Updated trade price))

  -- What a tick returns.
  abbrev pub TickOutcome : DemoCloseDecision → Type 0
  TickOutcome d =
      Touched trade price d.touched_tps
      × (crosses_liquidation trade.side price trade.liq_price ≡ true → Liquidated trade d)
      × (crosses_liquidation trade.side price trade.liq_price ≡ false → Decided trade price d)

  decision-Liquidated :
      (known : List ℕ) (loss : Decimal)
      → loss ≡ neg trade.margin_usdt
      → Liquidated trade (liquidation_decision trade known loss)
  decision-Liquidated known loss e = record {
    closure = _;
    closes = refl;
    reason = refl;
    exit = refl;
    loss = e;
  }

  liquidated-TickOutcome :
      crosses_liquidation trade.side price trade.liq_price ≡ true
      → Returns TickOutcome (liquidated trade (sorted_set trade.touched_tps))
  unfolding liquidated
  liquidated-TickOutcome e =
      >>=-Returns TickOutcome (capped_loss_usdt_on_liquidation trade.margin_usdt) _ λ loss made.
        ok-Returns TickOutcome (
          known-Touched trade price,
          (λ _. decision-Liquidated _ loss (capped_loss-neg _ loss made)),
          λ f. absurd (true≢false (sym e ∙ f)),
        )

  safe-TickOutcome :
      (m : Result DemoCloseDecision)
      → crosses_liquidation trade.side price trade.liq_price ≡ false
      → Returns (Decided trade price) m
      → Returns TickOutcome m
  safe-TickOutcome m e =
      Returns-map m λ d h. (h.touched, (λ f. absurd (true≢false (sym f ∙ e))), λ _. h)

  -- A tick that returns a decision lists the touched take-profits in increasing order, keeps the
  -- earlier ones, and adds none but open legs whose target the price has reached. Where the price
  -- has reached the liquidation price, the trade closes there and the whole margin is lost,
  -- whatever else the price has reached. Anywhere else a trade of model 3 fills no leg; in a trade
  -- of another model every open leg whose target the price has reached counts as touched, and those
  -- that were not touched before are filled. The trade stays open only if the price has reached
  -- neither the stop that holds nor, under model 3, its exit price, and under another model not
  -- every leg is touched. It closes for a reason that applies: at the exit price that model 3 works
  -- out, with every leg touched at the price of the tick, or at the stop, as a loss or at break-even.
  pub evaluate_price_tick-TickOutcome :
      (d : DemoCloseDecision) → evaluate_price_tick trade price ≡ ok d → TickOutcome d
  unfolding evaluate_price_tick
  evaluate_price_tick-TickOutcome d e =
      Returns-elim TickOutcome (evaluate_price_tick trade price) d
        (>>=-Returns TickOutcome (raise_if (lt trade.maintenance_margin_rate (of_ℕ 0)) _) _ λ _ _.
          >>=-Returns TickOutcome (raise_if (le trade.margin_usdt (of_ℕ 0)) _) _ λ _ _.
            >>=-Returns TickOutcome (raise_if (not (is_risk_model trade.risk_model)) _) _ λ _ _.
              if-Returns TickOutcome (crosses_liquidation trade.side price trade.liq_price) _ _
                liquidated-TickOutcome λ safe. safe-TickOutcome _ safe by_model)
        e
    where
      by_model : Returns (Decided trade price) (
          if trade.risk_model == 3
          then evaluate_model3 trade price (sorted_set trade.touched_tps)
          else evaluate_ladder trade price (sorted_set trade.touched_tps))
      by_model =
          if-Returns (Decided trade price) (trade.risk_model == 3) _ _
            (λ m. evaluate_model3-Decided _ (==→eq _ _ m) (known-Touched trade price))
            λ m. evaluate_ladder-Decided (not-==→≢ _ _ m)
