-- ===== src/Signal/Sizing.antt =====
-- shared/signal/sizing.py
pub mod Accounted
pub mod Fractions
use mrrik_ai_bot.Prelude.{
  ℕ, zero, suc, ◌+◌, ◌-◌, ◌≡◌, Bool, true, false, not, ◌&&◌, ◌||◌, List, [], ◌∷◌, ◌++◌, Option,
  none, some, Result, ok, err, ◌>>=◌, ◌>>◌, raise_if, ltb, ◌==◌, length, take, replicate, any,
}
use mrrik_ai_bot.Decimal.{Decimal, of_ℕ, add, sub, mul, div, sum, floor, ceiling, le, lt, eq}
use mrrik_ai_bot.Signal.Types.{SignalSide, long, short}

pub record SymbolFilters : Type 0 where
  pub step_size : Decimal
  pub tick_size : Decimal
  pub min_qty : Decimal
  pub min_notional : Decimal

pub record SizedLeg : Type 0 where
  pub leg_index : ℕ
  pub target_price : Decimal
  pub fraction : Decimal
  pub qty : Decimal
  pub notional : Decimal

-- `merged leg {leg} into leg {into}: below exchange minimums`
pub record Merge : Type 0 where
  pub leg : ℕ
  pub into : ℕ

pub record SizingResult : Type 0 where
  pub qty : Decimal
  pub notional_usdt : Decimal
  pub margin_usdt : Decimal
  pub leverage : ℕ
  pub legs : List SizedLeg
  pub notes : List Merge

-- `floor_to_step(value, step)`
unfoldable pub floor_to_step : Decimal → Decimal → Result Decimal
floor_to_step value step = do
  raise_if (le step (of_ℕ 0)) "step must be positive"
  ok (mul (floor (div value step)) step)

-- `order_kind`: a kind outside of the two is refused by the type.
pub data OrderKind : Type 0 where
  tp sl : OrderKind

abbrev pub round_toward : SignalSide → Decimal → Decimal
round_toward long x = floor x
round_toward short x = ceiling x

-- `round_price_to_tick(price, tick_size, side, order_kind)`
unfoldable pub round_price_to_tick : Decimal → Decimal → SignalSide → OrderKind → Result Decimal
round_price_to_tick price tick_size side order_kind = do
  raise_if (le price (of_ℕ 0)) "price must be positive"
  raise_if (le tick_size (of_ℕ 0)) "tick_size must be positive"
  ok (mul (round_toward side (div price tick_size)) tick_size)

unfoldable pub equal_fractions : ℕ → Result (List Decimal)
equal_fractions count = do
  raise_if (count == 0) "count must be positive"
  let fraction = div (of_ℕ 1) (of_ℕ count)
  ok (replicate (count - 1) fraction ++ sub (of_ℕ 1) (mul fraction (of_ℕ (count - 1))) ∷ [])

-- `weights[:-1]`, each divided by the total.
abbrev pub normalized : Decimal → List Decimal → List Decimal
normalized total [] = []
normalized total (w ∷ []) = []
normalized total (w ∷ v ∷ ws) = div w total ∷ normalized total (v ∷ ws)

unfoldable pub model2_fractions : ℕ → List Decimal → Result (List Decimal)
model2_fractions count weights = do
  raise_if (count == 0) "count must be positive"
  raise_if (ltb (length weights) count) "not enough model-2 weights for target count"
  let selected = take count weights
  raise_if (any (λ w. le w (of_ℕ 0)) selected) "model-2 weights must be positive"
  let shares = normalized (sum selected) selected
  ok (shares ++ sub (of_ℕ 1) (sum shares) ∷ [])

-- `_validate_sizing_inputs`
unfoldable pub validate_sizing_inputs :
    Decimal → ℕ → Decimal → List Decimal → SymbolFilters → Result (Unit {0})
validate_sizing_inputs margin_usdt leverage entry targets filters = do
  raise_if (le margin_usdt (of_ℕ 0)) "margin_usdt must be positive"
  raise_if (leverage == 0) "leverage must be positive"
  raise_if (le entry (of_ℕ 0)) "entry must be positive"
  raise_if (length targets == 0) "at least one target is required"
  raise_if (any (λ t. le t (of_ℕ 0)) targets) "targets must be positive"
  raise_if (le filters.step_size (of_ℕ 0) || le filters.tick_size (of_ℕ 0))
      "step_size and tick_size must be positive"
  raise_if (lt filters.min_qty (of_ℕ 0) || lt filters.min_notional (of_ℕ 0))
      "exchange minimums must not be negative"

-- `_validate_fractions`
unfoldable pub validate_fractions : List Decimal → ℕ → Result (Unit {0})
validate_fractions fractions target_count = do
  raise_if (not (length fractions == target_count)) "fraction count must match target count"
  raise_if (any (λ f. le f (of_ℕ 0)) fractions) "fractions must be positive"
  raise_if (not (eq (sum fractions) (of_ℕ 1))) "fractions must sum exactly to 1"

-- `[floor_to_step(qty * fraction, filters.step_size) for fraction in selected_fractions]`
unfoldable pub leg_quantities : Decimal → Decimal → List Decimal → Result (List Decimal)
leg_quantities qty step [] = ok []
leg_quantities qty step (f ∷ fs) = do
  q ← floor_to_step (mul qty f) step
  qs ← leg_quantities qty step fs
  ok (q ∷ qs)

-- `leg_quantities[0] += residual`
abbrev pub add_to_first : Decimal → List Decimal → List Decimal
add_to_first residual [] = []
add_to_first residual (q ∷ qs) = add q residual ∷ qs

unfoldable pub is_too_small : SymbolFilters → Decimal → Decimal → Bool
is_too_small filters qty notional =
    le qty (of_ℕ 0) || lt qty filters.min_qty || lt notional filters.min_notional

abbrev pub merged : SizedLeg → Decimal → Decimal → SizedLeg
merged previous fraction leg_qty =
    let merged_qty = add previous.qty leg_qty in
    record {
      leg_index = previous.leg_index;
      target_price = previous.target_price;
      fraction = add previous.fraction fraction;
      qty = merged_qty;
      notional = mul merged_qty previous.target_price;
    }

-- `legs` and `notes`, the last one first.
abbrev pub Sized : Type 0
Sized = List SizedLeg × List Merge

-- A leg that is too small, under the legs so far.
unfoldable pub merge_leg : SizedLeg → Sized → Result Sized
merge_leg leg ([], notes) = err "first leg is below exchange minimums"
merge_leg leg (previous ∷ legs, notes) = ok (
  merged previous leg.fraction leg.qty ∷ legs,
  record { leg = leg.leg_index; into = previous.leg_index } ∷ notes,
)

-- `if is_too_small:`
abbrev pub merged_or_appended : Bool → SizedLeg → Sized → Result Sized
merged_or_appended true leg done = merge_leg leg done
merged_or_appended false leg (legs, notes) = ok (leg ∷ legs, notes)

-- The body of the loop over the legs.
unfoldable pub size_leg :
    SymbolFilters → SignalSide → ℕ → Decimal → Decimal → Decimal → Sized → Result Sized
size_leg filters side i target fraction leg_qty done = do
  rounded_target ← round_price_to_tick target filters.tick_size side tp
  let leg_notional = mul leg_qty rounded_target
  let leg : SizedLeg = record {
    leg_index = i;
    target_price = rounded_target;
    fraction = fraction;
    qty = leg_qty;
    notional = leg_notional;
  }
  merged_or_appended (is_too_small filters leg_qty leg_notional) leg done

-- `enumerate(zip(targets, selected_fractions, leg_quantities, strict=True), start=i)`
unfoldable pub size_legs :
    SymbolFilters
    → SignalSide
    → ℕ
    → List Decimal
    → List Decimal
    → List Decimal
    → Sized
    → Result Sized
size_legs filters side i [] [] [] done = ok done
size_legs filters side i (t ∷ ts) (f ∷ fs) (q ∷ qs) done = do
  next ← size_leg filters side i t f q done
  size_legs filters side (suc i) ts fs qs next
size_legs filters side i _ _ _ done = err "zip() arguments have different lengths"

abbrev pub latest_last : {A : Type 0} → List A → List A → List A
latest_last [] acc = acc
latest_last (x ∷ xs) acc = latest_last xs (x ∷ acc)

-- `equal_fractions(len(targets)) if fractions is None else fractions`
abbrev pub fractions_or_equal : ℕ → Option (List Decimal) → Result (List Decimal)
fractions_or_equal count none = equal_fractions count
fractions_or_equal count (some fractions) = ok fractions

-- `size_position(margin_usdt, leverage, entry, targets, filters, side, fractions)`
unfoldable pub size_position :
    Decimal
    → ℕ
    → Decimal
    → List Decimal
    → SymbolFilters
    → SignalSide
    → Option (List Decimal)
    → Result SizingResult
size_position margin_usdt leverage entry targets filters side fractions = do
  validate_sizing_inputs margin_usdt leverage entry targets filters
  selected_fractions ← fractions_or_equal (length targets) fractions
  validate_fractions selected_fractions (length targets)
  let notional_usdt = mul margin_usdt (of_ℕ leverage)
  qty ← floor_to_step (div notional_usdt entry) filters.step_size
  raise_if (le qty (of_ℕ 0) || lt qty filters.min_qty) "total quantity is below minQty"
  raise_if (lt (mul qty entry) filters.min_notional) "total notional is below minNotional"
  quantities ← leg_quantities qty filters.step_size selected_fractions
  let leg_qtys = add_to_first (sub qty (sum quantities)) quantities
  sized ← size_legs filters side 1 targets selected_fractions leg_qtys ([], [])
  ok (record {
    qty = qty;
    notional_usdt = notional_usdt;
    margin_usdt = margin_usdt;
    leverage = leverage;
    legs = latest_last sized.0 [];
    notes = latest_last sized.1 [];
  })
