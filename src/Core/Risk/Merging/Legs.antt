-- ===== src/Core/Risk/Merging/Legs.antt =====
-- services/core_engine/risk.py: the leg indices of a plan.
use mrrik_ai_bot.Prelude.{
  ℕ, suc, ◌+◌, ◌≤◌, ◌<◌, ◌≡◌, ◌≢◌, refl, ap, sym, subst, Bool, true, List, [], ◌∷◌, ◌++◌, map,
  Option, none, some, ok, All, All-map, All-append, arith, length, Returns, >>=-Returns, ok-Returns,
  Returns-map, Returns-elim, err-Returns, if-holds, ◌==◌, not, ◌&&◌,
}
use mrrik_ai_bot.Prelude.Sets.{Increasing}
use mathlib.Core.List.{map-append}
use mrrik_ai_bot.Decimal.{Decimal, add}
use mrrik_ai_bot.Signal.Types.{SignalSide}
use mrrik_ai_bot.Signal.Sizing.{SymbolFilters}
use mrrik_ai_bot.Core.Risk.{ExecutionLegPlan, LegNote, round_price_conservative}
use mrrik_ai_bot.Core.Risk.Merging.{
  Pending, Merging, MergedLegs, pending_or, pending_leg, grow_last, is_empty, settled, settle,
  is_valid_leg, merge_next, merge_loop, finish_pending, merge_tiny_legs,
}

abbrev pub leg_indices : List ExecutionLegPlan → List ℕ
leg_indices = map λ leg. leg.leg_index

-- Leg indices that grow, from one up to below the bound.
pub record Numbered (bound : ℕ) (legs : List ExecutionLegPlan) : Type 0 where
  pub increasing : Increasing (leg_indices legs)
  pub in_range : All (λ i. (0 < i) × (i < bound)) (leg_indices legs)

leg_indices-grow_last :
    (fraction qty : Decimal) (legs : List ExecutionLegPlan)
    → leg_indices (grow_last fraction qty legs) ≡ leg_indices legs
leg_indices-grow_last fraction qty [] = refl
leg_indices-grow_last fraction qty (leg ∷ []) = refl
leg_indices-grow_last fraction qty (leg ∷ next ∷ legs) =
    ap (λ is. leg.leg_index ∷ is) (leg_indices-grow_last fraction qty (next ∷ legs))

Numbered-≡ :
    (bound : ℕ) (legs ls : List ExecutionLegPlan)
    → leg_indices legs ≡ leg_indices ls
    → Numbered bound ls
    → Numbered bound legs
Numbered-≡ bound legs ls e n = record {
  increasing = subst Increasing (sym e) n.increasing;
  in_range = subst (All (λ i. (0 < i) × (i < bound))) (sym e) n.in_range;
}

append-Increasing :
    (x bound : ℕ) (is : List ℕ)
    → bound ≤ x
    → All (λ i. (0 < i) × (i < bound)) is
    → Increasing is
    → Increasing (is ++ x ∷ [])
append-Increasing x bound [] le r h = tt
append-Increasing x bound (i ∷ []) le r h = (omega (arith, r.0.1), tt)
append-Increasing x bound (i ∷ j ∷ is) le r h = (h.0, append-Increasing x bound (j ∷ is) le r.1 h.1)

widen : (b c : ℕ) (legs : List ExecutionLegPlan) → b ≤ c → Numbered b legs → Numbered c legs
widen b c legs le n = record {
  increasing = n.increasing;
  in_range = All-map (leg_indices legs) (λ i h. (h.0, omega (arith, h.1))) n.in_range;
}

append-Numbered :
    (bound : ℕ) (leg : ExecutionLegPlan) (legs : List ExecutionLegPlan)
    → 0 < leg.leg_index
    → leg.leg_index < bound
    → Numbered leg.leg_index legs
    → Numbered bound (legs ++ leg ∷ [])
append-Numbered bound leg legs pos less n = record {
  increasing = subst Increasing (sym (map-append _ legs (leg ∷ []))) (
      append-Increasing leg.leg_index leg.leg_index (leg_indices legs) (omega arith) n.in_range
        n.increasing);
  in_range = subst (All _) (sym (map-append _ legs (leg ∷ []))) (
      All-append _ (leg_indices legs) (leg.leg_index ∷ [])
        (widen leg.leg_index bound legs (omega arith) n).in_range ((pos, less), tt));
}

-- Before the target with the index: what is pending stands behind every leg so far, and after the
-- first target there is a leg or something pending.
abbrev Bounded : ℕ → List ExecutionLegPlan → Option Pending → Type 0
Bounded index legs none = Numbered index legs × (1 < index → legs ≢ [])
Bounded index legs (some p) = (0 < p.index) × (p.index < index) × Numbered p.index legs

abbrev Before : ℕ → Merging → Type 0
Before index m = Bounded index m.legs m.pending

append-ne-nil : (legs : List ExecutionLegPlan) (leg : ExecutionLegPlan) → legs ++ leg ∷ [] ≢ []
append-ne-nil [] leg e = cc
append-ne-nil (l ∷ legs) leg e = cc

grow_last-ne-nil :
    (fraction qty : Decimal) (legs : List ExecutionLegPlan) (b : Bool)
    → (not (is_empty legs) && b) ≡ true
    → grow_last fraction qty legs ≢ []
grow_last-ne-nil fraction qty [] b h e = cc
grow_last-ne-nil fraction qty (leg ∷ []) b h e = cc
grow_last-ne-nil fraction qty (leg ∷ next ∷ legs) b h e = cc

-- The leg that the pending index stands for, at the target with the index.
abbrev Ready : ℕ → Pending → List ExecutionLegPlan → Type 0
Ready index p legs = (0 < p.index) × (p.index ≤ index) × Numbered p.index legs

pending_or-Ready :
    (index : ℕ) (target : Decimal) (legs : List ExecutionLegPlan) (pending : Option Pending)
    → 0 < index
    → Bounded index legs pending
    → Ready index (pending_or pending index target) legs
pending_or-Ready index target legs none pos h = (pos, omega arith, h.0)
pending_or-Ready index target legs (some p) pos h = (h.0, omega (arith, h.1), h.2)

settle-Before :
    (index : ℕ) (p : Pending) (fraction qty : Decimal) (legs : List ExecutionLegPlan)
    (notes : List LegNote)
    → Ready index p legs
    → Before (suc index) (settle index p fraction qty legs notes)
unfolding settle
settle-Before index p fraction qty legs notes (pos, le, n) =
    if-holds (Before (suc index)) (not (is_empty legs) && not (index == p.index)) _ _
      (λ e. (grown, λ _. grow_last-ne-nil fraction qty legs _ e))
      λ _. if-holds (Before (suc index)) (index == p.index) _ _ (λ _. appended) λ _. appended
  where
    grown : Numbered (suc index) (grow_last fraction qty legs)
    grown =
        Numbered-≡ _ _ legs (leg_indices-grow_last fraction qty legs)
          (widen p.index (suc index) legs (omega arith) n)

    appended : Bounded (suc index) (legs ++ pending_leg p fraction qty ∷ []) none
    appended = (
      append-Numbered (suc index) (pending_leg p fraction qty) legs pos (omega arith) n,
      λ _. append-ne-nil legs _,
    )

merge_next-Before :
    (filters : SymbolFilters) (index : ℕ) (target fraction qty : Decimal) (m : Merging)
    → 0 < index
    → Before index m
    → Before (suc index) (merge_next filters index target fraction qty m)
unfolding merge_next
merge_next-Before filters index target fraction qty m pos h =
    let p = pending_or m.pending index target in
    let ready = pending_or-Ready index target m.legs m.pending pos h in
    if-holds (Before (suc index)) (is_valid_leg filters (add m.pending_qty qty) p.target) _ _
      (λ _. settle-Before index p _ _ m.legs m.notes ready)
      λ _. (ready.0, omega (arith, ready.1), ready.2)

recount : (i j : ℕ) (m : Merging) → i ≡ j → Before i m → Before j m
recount i j m e h = subst (λ k. Before k m) e h

merge_loop-Before :
    (side : SignalSide) (filters : SymbolFilters) (index : ℕ) (ts fs qs : List Decimal)
    (m : Merging)
    → 0 < index
    → Before index m
    → Returns (Before (length ts + index)) (merge_loop side filters index ts fs qs m)
unfolding merge_loop
merge_loop-Before side filters index [] [] [] m pos h =
    ok-Returns (Before _) (recount index _ m (omega arith) h)
merge_loop-Before side filters index [] [] (q ∷ qs) m pos h = err-Returns (Before _) _
merge_loop-Before side filters index [] (f ∷ fs) qs m pos h = err-Returns (Before _) _
merge_loop-Before side filters index (t ∷ ts) [] qs m pos h = err-Returns (Before _) _
merge_loop-Before side filters index (t ∷ ts) (f ∷ fs) [] m pos h = err-Returns (Before _) _
merge_loop-Before side filters index (t ∷ ts) (f ∷ fs) (q ∷ qs) m pos h =
    >>=-Returns (Before _) (round_price_conservative side t filters.tick_size) _ λ price _.
      Returns-map _ (λ (n : Merging) k. recount _ _ n (omega arith) k)
        (merge_loop-Before side filters (suc index) ts fs qs (merge_next filters index price f q m)
          (omega arith) (merge_next-Before filters index price f q m pos h))

-- The legs of a plan for so many targets.
abbrev pub LegsFor : ℕ → MergedLegs → Type 0
LegsFor count merged = Numbered (suc count) merged.0 × (merged.0 ≢ [])

finish_pending-LegsFor :
    (count : ℕ) (pending : Option Pending) (fraction qty : Decimal) (legs : List ExecutionLegPlan)
    (notes : List LegNote)
    → 0 < count
    → Bounded (suc count) legs pending
    → Returns (LegsFor count) (finish_pending pending fraction qty legs notes)
finish_pending-LegsFor count none fraction qty legs notes pos h =
    ok-Returns (LegsFor count) (h.0, h.1 (omega arith))
finish_pending-LegsFor count (some p) fraction qty [] notes pos h = err-Returns (LegsFor count) _
finish_pending-LegsFor count (some p) fraction qty (leg ∷ legs) notes pos h =
    ok-Returns (LegsFor count) (
      Numbered-≡ _ _ (leg ∷ legs) (leg_indices-grow_last fraction qty (leg ∷ legs))
          (widen p.index _ _ (omega (arith, h.1)) h.2),
      grow_last-ne-nil fraction qty (leg ∷ legs) true refl,
    )

-- Merging the legs of at least one target leaves at least one leg; the legs keep the order of the
-- targets, so that no two of them share an index.
pub merge_tiny_legs-LegsFor :
    (side : SignalSide) (targets fractions quantities : List Decimal) (filters : SymbolFilters)
    (merged : MergedLegs)
    → 0 < length targets
    → merge_tiny_legs side targets fractions quantities filters ≡ ok merged
    → LegsFor (length targets) merged
unfolding merge_tiny_legs
merge_tiny_legs-LegsFor side targets fractions quantities filters merged pos e =
    Returns-elim (LegsFor (length targets))
      (merge_tiny_legs side targets fractions quantities filters) merged
      (>>=-Returns (LegsFor (length targets))
        (merge_loop side filters 1 targets fractions quantities (settled [] [])) _
        λ m made. finish_pending-LegsFor (length targets) m.pending _ _ m.legs m.notes pos (
          recount _ _ m (omega arith) (
            Returns-elim (Before (length targets + 1)) _ m
              (merge_loop-Before side filters 1 targets fractions quantities (settled [] [])
                (omega arith) start)
              made)))
      e
  where
    start : Before 1 (settled [] [])
    start = (record { increasing = tt; in_range = tt }, λ h. absurd (omega arith))
