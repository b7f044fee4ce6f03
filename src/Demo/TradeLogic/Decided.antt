-- ===== src/Demo/TradeLogic/Decided.antt =====
-- services/demo_engine/trade_logic.py: what a decision about a price tick is justified by.
use mrrik_ai_bot.Prelude.{
  ℕ, ◌≡◌, ◌≢◌, sym, ◌⊎◌, inl, inr, Bool, true, false, not, ◌&&◌, List, [], refl, ap, ◌∙◌, ◌++◌,
  Option, none, some, ok, raise_if, >>=-eq-ok, ok-injective,
}
use mrrik_ai_bot.Prelude.Sets.{
  Elem, elem, sorted_set, Increasing, sorted_set-Elem, Elem-sorted_set, sorted_set-Increasing,
  Elem-append-left, Elem-append-right, Elem-append-split, Elem-keep_if, keep_if-Elem, elem-Elem,
}
use mrrik_ai_bot.Decimal.{Decimal, of_ℕ, lt, eq, neg}
use mrrik_ai_bot.Signal.Pnl.{capped_loss_usdt_on_liquidation}
use mrrik_ai_bot.Demo.TradeLogic.{
  OpenTrade, DemoLegPlan, DemoCloseDecision, Closure, Reason, liquidation, model3_exit, all_tp, be,
  sl, crosses_take_profit, crosses_stop_loss, active_stop, model3_exit_price, newly_filled,
  all_touched,
}

-- The leg is an open one with the index, and the price has reached its target.
pub record Reached (trade : OpenTrade) (price : Decimal) (k : ℕ) : Type 0 where
  pub leg : DemoLegPlan
  pub is_open : Elem leg trade.open_legs
  pub index : leg.leg_index ≡ k
  pub reached : crosses_take_profit trade.side price leg.target_price ≡ true

-- The take-profits that count as touched after a tick.
pub record Touched (trade : OpenTrade) (price : Decimal) (touched : List ℕ) : Type 0 where
  pub increasing : Increasing touched
  pub kept : (k : ℕ) → Elem k trade.touched_tps → Elem k touched
  pub sound : (k : ℕ) → Elem k touched → Elem k trade.touched_tps ⊎ Reached trade price k

-- The price has reached the stop, and the trade leaves at the stop.
abbrev StoppedAt : OpenTrade → Decimal → List ℕ → Decimal → Type 0
StoppedAt trade price touched exit =
    (crosses_stop_loss trade.side price (active_stop trade touched) ≡ true)
    × (exit ≡ active_stop trade touched)

-- The exit price of model 3.
abbrev pub Threshold : OpenTrade → Decimal → Type 0
Threshold trade exit =
    model3_exit_price trade.side trade.entry trade.leverage trade.model3_exit_roi_pct ≡ ok exit

-- Why a trade leaves for the reason at the exit price, as long as it is not liquidated.
abbrev pub Why : OpenTrade → Decimal → List ℕ → Reason → Decimal → Type 0
Why trade price touched liquidation exit = ⊥
Why trade price touched model3_exit exit =
    (trade.risk_model ≡ 3)
    × Threshold trade exit
    × (crosses_take_profit trade.side price exit ≡ true)
Why trade price touched all_tp exit =
    (trade.risk_model ≢ 3) × (all_touched trade.open_legs touched ≡ true) × (exit ≡ price)
Why trade price touched be exit = StoppedAt trade price touched exit × (eq exit trade.entry ≡ true)
Why trade price touched sl exit = StoppedAt trade price touched exit × (eq exit trade.entry ≡ false)

-- Why a trade stays open: the price has reached neither the stop that holds nor the exit price of
-- model 3, and under the other models not every leg is touched.
pub record StaysOpen (trade : OpenTrade) (price : Decimal) (touched : List ℕ) : Type 0 where
  pub above_stop : crosses_stop_loss trade.side price (active_stop trade touched) ≡ false
  pub below_exit :
      trade.risk_model ≡ 3
      → (exit : Decimal) → Threshold trade exit
      → crosses_take_profit trade.side price exit ≡ false
  pub legs_left : trade.risk_model ≢ 3 → all_touched trade.open_legs touched ≡ false

-- A decision that nothing is missing from, once the liquidation price is not reached.
abbrev pub Justified : OpenTrade → Decimal → List ℕ → Option Closure → Type 0
Justified trade price touched none = StaysOpen trade price touched
Justified trade price touched (some c) = Why trade price touched c.closed_reason c.exit_price

-- No leg that the price has reached is left out: it is touched, and it is filled by this tick unless
-- it was touched before.
pub record Updated (trade : OpenTrade) (price : Decimal) (touched filled : List ℕ) : Type 0 where
  pub complete :
      (leg : DemoLegPlan)
      → Elem leg trade.open_legs
      → crosses_take_profit trade.side price leg.target_price ≡ true
      → Elem leg.leg_index touched
  pub filled_reached : (k : ℕ) → Elem k filled → Reached trade price k
  pub filled_complete :
      (leg : DemoLegPlan)
      → Elem leg trade.open_legs
      → crosses_take_profit trade.side price leg.target_price ≡ true
      → ¬ Elem leg.leg_index trade.touched_tps
      → Elem leg.leg_index filled

-- What a tick fills: nothing under model 3, and what the price has reached under the others.
pub record Fills (trade : OpenTrade) (price : Decimal) (touched filled : List ℕ) : Type 0 where
  pub by_model3 : trade.risk_model ≡ 3 → filled ≡ []
  pub by_ladder : trade.risk_model ≢ 3 → Updated trade price touched filled

pub record Decided (trade : OpenTrade) (price : Decimal) (d : DemoCloseDecision) : Type 0 where
  pub touched : Touched trade price d.touched_tps
  pub fills : Fills trade price d.touched_tps d.filled_leg_indices
  pub justified : Justified trade price d.touched_tps d.closure

-- The whole margin is lost at the liquidation price.
pub record Liquidated (trade : OpenTrade) (d : DemoCloseDecision) : Type 0 where
  pub closure : Closure
  pub closes : d.closure ≡ some closure
  pub reason : closure.closed_reason ≡ liquidation
  pub exit : closure.exit_price ≡ trade.liq_price
  pub loss : closure.realized_pnl_usdt ≡ neg trade.margin_usdt

pub capped_loss-neg :
    (margin loss : Decimal) → capped_loss_usdt_on_liquidation margin ≡ ok loss → loss ≡ neg margin
unfolding capped_loss_usdt_on_liquidation
capped_loss-neg margin loss e =
    let (_, _, made) = >>=-eq-ok (raise_if (lt margin (of_ℕ 0)) _) _ e in sym (ok-injective made)

pub known-Touched :
    (trade : OpenTrade) (price : Decimal) → Touched trade price (sorted_set trade.touched_tps)
known-Touched trade price = record {
  increasing = sorted_set-Increasing trade.touched_tps;
  kept = λ k. sorted_set-Elem k trade.touched_tps;
  sound = λ k h. inl (Elem-sorted_set k trade.touched_tps h);
}

&&-right : (a b : Bool) → (a && b) ≡ true → b ≡ true
&&-right true b h = h
&&-right false b h = cc

-- A leg that is newly filled has reached its target.
newly_filled-Reached :
    (trade : OpenTrade) (price : Decimal) (known : List ℕ) (k : ℕ)
    → Elem k (newly_filled trade price known)
    → Reached trade price k
unfolding newly_filled
newly_filled-Reached trade price known k h =
    let (leg, here, index, passes) = Elem-keep_if _ _ k trade.open_legs h in
    record {
      leg = leg;
      is_open = here;
      index = index;
      reached = &&-right (not (elem leg.leg_index known)) _ passes;
    }

pub updated-Touched :
    (trade : OpenTrade) (price : Decimal)
    → let known = sorted_set trade.touched_tps in
      Touched trade price (sorted_set (known ++ newly_filled trade price known))
updated-Touched trade price =
    let known = sorted_set trade.touched_tps in
    let filled = newly_filled trade price known in
    record {
      increasing = sorted_set-Increasing (known ++ filled);
      kept = λ k h.
          sorted_set-Elem k (known ++ filled)
            (Elem-append-left k known filled (sorted_set-Elem k trade.touched_tps h));
      sound = λ k h.
          elim (Elem-append-split k known filled (Elem-sorted_set k (known ++ filled) h)) [
            | inl l ↦ inl (Elem-sorted_set k trade.touched_tps l)
            | inr r ↦ inr (newly_filled-Reached trade price known k r)
          ];
    }

-- A leg that the price has reached was known or is newly filled.
newly_filled-complete :
    (trade : OpenTrade) (price : Decimal) (known : List ℕ) (leg : DemoLegPlan)
    → Elem leg trade.open_legs
    → crosses_take_profit trade.side price leg.target_price ≡ true
    → Elem leg.leg_index known ⊎ Elem leg.leg_index (newly_filled trade price known)
unfolding newly_filled
newly_filled-complete trade price known leg here reached = go (elem leg.leg_index known) refl
  where
    go :
        (b : Bool)
        → elem leg.leg_index known ≡ b
        → Elem leg.leg_index known ⊎ Elem leg.leg_index (newly_filled trade price known)
    go true e = inl (elem-Elem leg.leg_index known e)
    go false e = inr (
        keep_if-Elem (λ (l : DemoLegPlan). l.leg_index)
          (λ (l : DemoLegPlan).
            not (elem l.leg_index known) && crosses_take_profit trade.side price l.target_price)
          leg trade.open_legs here (both e))
      where
        both :
            elem leg.leg_index known ≡ false
            → (not (elem leg.leg_index known)
                && crosses_take_profit trade.side price leg.target_price)
              ≡ true
        both e =
            ap (λ b. not b && crosses_take_profit trade.side price leg.target_price) e ∙ reached

pub newly_filled-Updated :
    (trade : OpenTrade) (price : Decimal)
    → let known = sorted_set trade.touched_tps in
      let filled = newly_filled trade price known in
      Updated trade price (sorted_set (known ++ filled)) filled
newly_filled-Updated trade price =
    let known = sorted_set trade.touched_tps in
    let filled = newly_filled trade price known in
    record {
      complete = λ leg here reached.
          sorted_set-Elem leg.leg_index (known ++ filled)
            (elim (newly_filled-complete trade price known leg here reached) [
              | inl l ↦ Elem-append-left leg.leg_index known filled l
              | inr r ↦ Elem-append-right leg.leg_index known filled r
            ]);
      filled_reached = newly_filled-Reached trade price known;
      filled_complete = λ leg here reached fresh.
          elim (newly_filled-complete trade price known leg here reached) [
            | inl l ↦ absurd (fresh (Elem-sorted_set leg.leg_index trade.touched_tps l))
            | inr r ↦ r
          ];
    }

pub model3-Fills :
    (trade : OpenTrade) (price : Decimal) (touched : List ℕ)
    → trade.risk_model ≡ 3
    → Fills trade price touched []
model3-Fills trade price touched model = record {
  by_model3 = λ _. refl;
  by_ladder = λ other. absurd (other model);
}

pub ladder-Fills :
    (trade : OpenTrade) (price : Decimal) (touched filled : List ℕ)
    → trade.risk_model ≢ 3
    → Updated trade price touched filled
    → Fills trade price touched filled
ladder-Fills trade price touched filled other u = record {
  by_model3 = λ model. absurd (other model);
  by_ladder = λ _. u;
}
