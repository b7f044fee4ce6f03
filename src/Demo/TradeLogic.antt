-- ===== src/Demo/TradeLogic.antt =====
-- services/demo_engine/trade_logic.py
pub mod Opening
pub mod Decided
pub mod Ticks
pub mod Total
use mrrik_ai_bot.Prelude.{
  ℕ, zero, suc, ◌≡◌, Bool, true, false, not, ◌&&◌, ◌||◌, String, List, [], ◌∷◌, ◌++◌, Option, none,
  some, Result, ok, err, ◌>>=◌, ◌>>◌, raise_if, ◌==◌, length, all, map, keep_if, if◌then◌else◌,
}
use mrrik_ai_bot.Prelude.Sets.{elem, sorted_set}
use mrrik_ai_bot.Decimal.{Decimal, of_ℕ, add, sub, mul, div, neg, le, lt, eq}
use mrrik_ai_bot.Signal.Types.{SignalSide, long, short}
use mrrik_ai_bot.Signal.Pnl.{
  approximate_liquidation_price, capped_loss_usdt_on_liquidation, pnl_usdt_for_fraction,
}
use mrrik_ai_bot.Signal.Sizing.{equal_fractions, model2_fractions}

pub record DemoLegPlan : Type 0 where
  pub leg_index : ℕ
  pub target_price : Decimal
  pub fraction : Decimal
  pub qty : Decimal

-- `closed_reason`
pub data Reason : Type 0 where
  liquidation model3_exit all_tp be sl : Reason

-- The fields that a decision has where the trade closes.
pub record Closure : Type 0 where
  pub closed_reason : Reason
  pub exit_price : Decimal
  pub realized_roi_pct : Decimal
  pub realized_pnl_usdt : Decimal

-- `should_close` is that there is a closure.
pub record DemoCloseDecision : Type 0 where
  pub closure : Option Closure
  pub touched_tps : List ℕ
  pub filled_leg_indices : List ℕ

-- `crosses_take_profit(side, price, target)`
unfoldable pub crosses_take_profit : SignalSide → Decimal → Decimal → Bool
crosses_take_profit long price target = le target price
crosses_take_profit short price target = le price target

-- `crosses_stop_loss(side, price, stop_loss)`
unfoldable pub crosses_stop_loss : SignalSide → Decimal → Decimal → Bool
crosses_stop_loss long price stop_loss = le price stop_loss
crosses_stop_loss short price stop_loss = le stop_loss price

-- `crosses_liquidation(side, price, liq_price)`
unfoldable pub crosses_liquidation : SignalSide → Decimal → Decimal → Bool
crosses_liquidation long price liq_price = le price liq_price
crosses_liquidation short price liq_price = le liq_price price

-- `current_stop_loss(original_stop_loss, entry, touched_tps, move_sl_to_be_after_tp1)`
unfoldable pub current_stop_loss : Decimal → Decimal → List ℕ → Bool → Decimal
current_stop_loss original_stop_loss entry touched_tps move_sl_to_be_after_tp1 =
    if move_sl_to_be_after_tp1 && elem 1 touched_tps then entry else original_stop_loss

abbrev multiplier : SignalSide → Decimal → Decimal
multiplier long move = add (of_ℕ 1) move
multiplier short move = sub (of_ℕ 1) move

-- `model3_exit_price(side, entry, leverage, model3_exit_roi_pct)`
unfoldable pub model3_exit_price : SignalSide → Decimal → ℕ → Decimal → Result Decimal
model3_exit_price side entry leverage model3_exit_roi_pct = do
  raise_if (le entry (of_ℕ 0)) "entry must be positive"
  raise_if (leverage == 0) "leverage must be positive"
  raise_if (le model3_exit_roi_pct (of_ℕ 0)) "model3_exit_roi_pct must be positive"
  let move = div model3_exit_roi_pct (mul (of_ℕ 100) (of_ℕ leverage))
  ok (mul entry (multiplier side move))

abbrev pub is_risk_model : ℕ → Bool
is_risk_model model = model == 1 || model == 2 || model == 3

-- What a tick is evaluated against: the arguments of `evaluate_price_tick` but for the price.
pub record OpenTrade : Type 0 where
  pub side : SignalSide
  pub entry : Decimal
  pub original_stop_loss : Decimal
  pub leverage : ℕ
  pub margin_usdt : Decimal
  pub liq_price : Decimal
  pub risk_model : ℕ
  pub model3_exit_roi_pct : Decimal
  pub move_sl_to_be_after_tp1 : Bool
  pub open_legs : List DemoLegPlan
  pub touched_tps : List ℕ
  pub maintenance_margin_rate : Decimal

-- The price at which a leg leaves the position, if it leaves it.
abbrev exit_of : Bool → Decimal → Option Decimal → Option Decimal
exit_of true target remaining = some target
exit_of false target remaining = remaining

-- `_blended_pnl`: the loop, from what has been added up so far.
unfoldable pub blended_from :
    OpenTrade → List ℕ → Option Decimal → Decimal → List DemoLegPlan → Result Decimal
blended_from trade touched remaining pnl [] = ok pnl
blended_from trade touched remaining pnl (leg ∷ legs) =
    elim (exit_of (elem leg.leg_index touched) leg.target_price remaining) [
      | none ↦ blended_from trade touched remaining pnl legs
      | some price ↦
          pnl_usdt_for_fraction trade.margin_usdt leg.fraction trade.side trade.entry price
            trade.leverage
          >>= λ share. blended_from trade touched remaining (add pnl share) legs
    ]

abbrev pub blended_pnl : OpenTrade → List ℕ → Option Decimal → Result Decimal
blended_pnl trade touched remaining = blended_from trade touched remaining (of_ℕ 0) trade.open_legs

-- `_closed_decision(reason, exit_price, pnl, margin_usdt, touched_tps, filled_leg_indices)`
unfoldable pub closed_decision :
    Reason → Decimal → Decimal → Decimal → List ℕ → List ℕ → DemoCloseDecision
closed_decision reason exit_price pnl margin touched filled = record {
  closure = some (record {
    closed_reason = reason;
    exit_price = exit_price;
    realized_roi_pct = mul (div pnl margin) (of_ℕ 100);
    realized_pnl_usdt = pnl;
  });
  touched_tps = touched;
  filled_leg_indices = filled;
}

abbrev pub still_open : List ℕ → List ℕ → DemoCloseDecision
still_open touched filled = record {
  closure = none;
  touched_tps = touched;
  filled_leg_indices = filled;
}

-- The stop that holds once the take-profits are touched.
abbrev pub active_stop : OpenTrade → List ℕ → Decimal
active_stop trade touched =
    current_stop_loss trade.original_stop_loss trade.entry touched trade.move_sl_to_be_after_tp1

abbrev pub stop_reason : OpenTrade → Decimal → Reason
stop_reason trade stop = if eq stop trade.entry then be else sl

abbrev pub whole_pnl : OpenTrade → Decimal → Result Decimal
whole_pnl trade price =
    pnl_usdt_for_fraction trade.margin_usdt (of_ℕ 1) trade.side trade.entry price trade.leverage

-- The end of the tick under model 3: the stop.
unfoldable pub evaluate_stop : OpenTrade → Decimal → List ℕ → Result DemoCloseDecision
evaluate_stop trade price known =
    let stop = active_stop trade known in
    if crosses_stop_loss trade.side price stop
    then (do
      pnl ← whole_pnl trade stop
      ok (closed_decision (stop_reason trade stop) stop pnl trade.margin_usdt known []))
    else ok (still_open known [])

unfoldable pub evaluate_model3 : OpenTrade → Decimal → List ℕ → Result DemoCloseDecision
evaluate_model3 trade price known = do
  threshold ← model3_exit_price trade.side trade.entry trade.leverage trade.model3_exit_roi_pct
  if crosses_take_profit trade.side price threshold
      then (do
        pnl ← whole_pnl trade threshold
        ok (closed_decision model3_exit threshold pnl trade.margin_usdt known []))
      else evaluate_stop trade price known

-- `newly_filled`
unfoldable pub newly_filled : OpenTrade → Decimal → List ℕ → List ℕ
newly_filled trade price known =
    map (λ (leg : DemoLegPlan). leg.leg_index)
      (keep_if
        (λ leg.
          not (elem leg.leg_index known) && crosses_take_profit trade.side price leg.target_price)
        trade.open_legs)

-- `open_legs and all(leg.leg_index in updated_tps for leg in open_legs)`
abbrev pub all_touched : List DemoLegPlan → List ℕ → Bool
all_touched [] touched = false
all_touched (leg ∷ legs) touched = all (λ l. elem l.leg_index touched) (leg ∷ legs)

-- The branch of models 1 and 2, with `newly_filled` and `updated_tps`.
unfoldable pub evaluate_targets : OpenTrade → Decimal → List ℕ → List ℕ → Result DemoCloseDecision
evaluate_targets trade price filled touched =
    let stop = active_stop trade touched in
    if all_touched trade.open_legs touched
    then (do
      pnl ← blended_pnl trade touched none
      ok (closed_decision all_tp price pnl trade.margin_usdt touched filled))
    else if crosses_stop_loss trade.side price stop
    then (do
      pnl ← blended_pnl trade touched (some stop)
      ok (closed_decision (stop_reason trade stop) stop pnl trade.margin_usdt touched filled))
    else ok (still_open touched filled)

unfoldable pub evaluate_ladder : OpenTrade → Decimal → List ℕ → Result DemoCloseDecision
evaluate_ladder trade price known =
    let filled = newly_filled trade price known in
    evaluate_targets trade price filled (sorted_set (known ++ filled))

-- The result of a crossed liquidation price.
abbrev pub liquidation_decision : OpenTrade → List ℕ → Decimal → DemoCloseDecision
liquidation_decision trade known loss = record {
  closure = some (record {
    closed_reason = liquidation;
    exit_price = trade.liq_price;
    realized_roi_pct = neg (of_ℕ 100);
    realized_pnl_usdt = loss;
  });
  touched_tps = known;
  filled_leg_indices = [];
}

unfoldable pub liquidated : OpenTrade → List ℕ → Result DemoCloseDecision
liquidated trade known = do
  loss ← capped_loss_usdt_on_liquidation trade.margin_usdt
  ok (liquidation_decision trade known loss)

-- `evaluate_price_tick`
unfoldable pub evaluate_price_tick : OpenTrade → Decimal → Result DemoCloseDecision
evaluate_price_tick trade price = do
  raise_if (lt trade.maintenance_margin_rate (of_ℕ 0))
      "maintenance_margin_rate must not be negative"
  raise_if (le trade.margin_usdt (of_ℕ 0)) "margin_usdt must be positive"
  raise_if (not (is_risk_model trade.risk_model)) "risk_model must be 1, 2, or 3"
  let known = sorted_set trade.touched_tps
  if crosses_liquidation trade.side price trade.liq_price
      then liquidated trade known
      else if trade.risk_model == 3
      then evaluate_model3 trade price known
      else evaluate_ladder trade price known
