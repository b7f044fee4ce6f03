-- ===== src/Core/Risk/Merging.antt =====
-- services/core_engine/risk.py: `_merge_tiny_legs`.
pub mod Legs
use mrrik_ai_bot.Prelude.{
  ℕ, zero, suc, Bool, true, false, not, ◌&&◌, ◌||◌, String, List, [], ◌∷◌, ◌++◌, Option, none, some,
  Result, ok, err, ◌>>=◌, ◌>>◌, raise_if, ◌==◌, length, any, if◌then◌else◌,
}
use mrrik_ai_bot.Decimal.{Decimal, of_ℕ, add, sub, mul, div, sum, floor, le, lt}
use mrrik_ai_bot.Signal.Types.{SignalSide, long, short}
use mrrik_ai_bot.Signal.Pnl.{approximate_liquidation_price}
use mrrik_ai_bot.Signal.Sizing.{
  SymbolFilters, round_toward, equal_fractions, model2_fractions, add_to_first,
}
use mrrik_ai_bot.Core.Risk.{
  ExecutionLegPlan, LegNote, merged_legs_into, merged_legs, merged_leg_into, ExecutionPlan,
  round_qty_down, round_price_conservative,
}

-- What `_merge_tiny_legs` has collected since the last leg that is large enough.
pub record Pending : Type 0 where
  pub index : ℕ
  pub target : Decimal

pub record Merging : Type 0 where
  pub legs : List ExecutionLegPlan
  pub notes : List LegNote
  pub pending : Option Pending
  pub pending_fraction : Decimal
  pub pending_qty : Decimal

-- `pending_index` and `pending_target`, set where they are missing.
abbrev pub pending_or : Option Pending → ℕ → Decimal → Pending
pending_or none index target = record { index = index; target = target }
pending_or (some p) index target = p

-- `legs[-1] = ...`, with the fraction and the quantity added.
abbrev pub grow_last : Decimal → Decimal → List ExecutionLegPlan → List ExecutionLegPlan
grow_last fraction qty [] = []
grow_last fraction qty (leg ∷ []) =
    record leg { fraction = add leg.fraction fraction; qty = add leg.qty qty } ∷ []
grow_last fraction qty (leg ∷ next ∷ legs) = leg ∷ grow_last fraction qty (next ∷ legs)

-- `legs[-1].leg_index`
abbrev pub last_index : List ExecutionLegPlan → ℕ
last_index [] = 0
last_index (leg ∷ []) = leg.leg_index
last_index (leg ∷ next ∷ legs) = last_index (next ∷ legs)

abbrev pub is_empty : List ExecutionLegPlan → Bool
is_empty [] = true
is_empty (leg ∷ legs) = false

abbrev pub pending_leg : Pending → Decimal → Decimal → ExecutionLegPlan
pending_leg p fraction qty = record {
  leg_index = p.index;
  target_price = p.target;
  fraction = fraction;
  qty = qty;
}

abbrev pub settled : List ExecutionLegPlan → List LegNote → Merging
settled legs notes = record {
  legs = legs;
  notes = notes;
  pending = none;
  pending_fraction = of_ℕ 0;
  pending_qty = of_ℕ 0;
}

-- What is pending is large enough: it goes into the last leg, or it is a leg of its own.
unfoldable pub settle :
    ℕ → Pending → Decimal → Decimal → List ExecutionLegPlan → List LegNote → Merging
settle index p fraction qty legs notes =
    if not (is_empty legs) && not (index == p.index)
    then settled (grow_last fraction qty legs)
        (notes ++ merged_legs_into p.index index (last_index legs) ∷ [])
    else if index == p.index
    then settled (legs ++ pending_leg p fraction qty ∷ []) notes
    else settled (legs ++ pending_leg p fraction qty ∷ []) (notes ++ merged_legs p.index index ∷ [])

-- `valid`
unfoldable pub is_valid_leg : SymbolFilters → Decimal → Decimal → Bool
is_valid_leg filters qty target = le filters.min_qty qty && le filters.min_notional (mul qty target)

abbrev pub still_pending : Merging → Pending → Decimal → Decimal → Merging
still_pending m p fraction qty = record m {
  pending = some p;
  pending_fraction = fraction;
  pending_qty = qty;
}

-- The body of the loop, once the target is rounded.
unfoldable pub merge_next : SymbolFilters → ℕ → Decimal → Decimal → Decimal → Merging → Merging
merge_next filters index rounded_target fraction leg_qty m =
    let p = pending_or m.pending index rounded_target in
    let pending_fraction = add m.pending_fraction fraction in
    let pending_qty = add m.pending_qty leg_qty in
    if is_valid_leg filters pending_qty p.target
    then settle index p pending_fraction pending_qty m.legs m.notes
    else still_pending m p pending_fraction pending_qty

unfoldable pub merge_loop :
    SignalSide
    → SymbolFilters
    → ℕ
    → List Decimal
    → List Decimal
    → List Decimal
    → Merging
    → Result Merging
merge_loop side filters index [] [] [] m = ok m
merge_loop side filters index (t ∷ ts) (f ∷ fs) (q ∷ qs) m = do
  rounded_target ← round_price_conservative side t filters.tick_size
  merge_loop side filters (suc index) ts fs qs (merge_next filters index rounded_target f q m)
merge_loop side filters index _ _ _ m = err "zip() arguments have different lengths"

abbrev pub MergedLegs : Type 0
MergedLegs = List ExecutionLegPlan × List LegNote

-- What is left pending at the end goes into the last leg.
abbrev pub finish_pending :
    Option Pending → Decimal → Decimal → List ExecutionLegPlan → List LegNote → Result MergedLegs
finish_pending none fraction qty legs notes = ok (legs, notes)
finish_pending (some p) fraction qty [] notes = err "no TP leg satisfies exchange minimums"
finish_pending (some p) fraction qty (leg ∷ legs) notes = ok (
  grow_last fraction qty (leg ∷ legs),
  notes ++ merged_leg_into p.index (last_index (leg ∷ legs)) ∷ [],
)

-- `_merge_tiny_legs(side, targets, fractions, quantities, filters)`
unfoldable pub merge_tiny_legs :
    SignalSide → List Decimal → List Decimal → List Decimal → SymbolFilters → Result MergedLegs
merge_tiny_legs side targets fractions quantities filters = do
  m ← merge_loop side filters 1 targets fractions quantities (settled [] [])
  finish_pending m.pending m.pending_fraction m.pending_qty m.legs m.notes
