-- ===== src/Signal/Sizing/Accounted.antt =====
-- shared/signal/sizing.py: no target is dropped silently.
use mrrik_ai_bot.Prelude.{
  ≤-suc-cases, ℕ, suc, ◌+◌, ◌≡◌, ◌<◌, ◌≤◌, refl, ◌⊎◌, inl, inr, Bool, true, false, List, [], ◌∷◌,
  map, ok, >>=-eq-ok, ok-injective, arith, sym, ◌∙◌, length, All, All-map, ◌||◌, subst, Option,
  Returns-elim, >>=-Returns, ok-Returns, raise_if,
}
use mrrik_ai_bot.Prelude.Sets.{Elem}
use mrrik_ai_bot.Decimal.{Decimal, of_ℕ, mul, div, le, lt, sub, sum}
use mrrik_ai_bot.Signal.Types.{SignalSide}
use mrrik_ai_bot.Signal.Sizing.{
  SymbolFilters, SizedLeg, Merge, SizingResult, Sized, merged, merged_or_appended,
  fractions_or_equal, validate_sizing_inputs, validate_fractions, leg_quantities, floor_to_step,
  merge_leg, size_leg, size_legs, latest_last, add_to_first, size_position, round_price_to_tick, tp,
}

abbrev pub leg_indices : List SizedLeg → List ℕ
leg_indices = map λ l. l.leg_index

abbrev pub merged_legs : List Merge → List ℕ
merged_legs = map λ m. m.leg

-- The targets up to the number are accounted for: each of them has a leg of its own or a note that
-- it was merged, and each note names a leg of an earlier target.
pub record Accounted (count : ℕ) (legs : List SizedLeg) (notes : List Merge) : Type 0 where
  pub covered : (k : ℕ) → 0 < k → k ≤ count → Elem k (leg_indices legs) ⊎ Elem k (merged_legs notes)
  pub merged_into : All (λ m. (m.into < m.leg) × Elem m.into (leg_indices legs)) notes
  pub in_range : All (λ l. l.leg_index ≤ count) legs

push-Accounted :
    (n : ℕ) (leg : SizedLeg) (legs : List SizedLeg) (notes : List Merge)
    → leg.leg_index ≡ suc n
    → Accounted n legs notes
    → Accounted (suc n) (leg ∷ legs) notes
push-Accounted n leg legs notes e a = record {
  covered = λ k p q. elim (≤-suc-cases k n q) [
    | inl s ↦ inl (inl (s ∙ sym e))
    | inr s ↦ elim (a.covered k p s) [ inl x ↦ inl (inr x) | inr x ↦ inr x ]
  ];
  merged_into = All-map notes (λ m h. (h.0, inr h.1)) a.merged_into;
  in_range = (omega (arith, e), All-map legs (λ l h. omega (arith, h)) a.in_range);
}

merge-Accounted :
    (n i : ℕ) (leg leg' : SizedLeg) (legs : List SizedLeg) (notes : List Merge)
    → i ≡ suc n
    → leg'.leg_index ≡ leg.leg_index
    → Accounted n (leg ∷ legs) notes
    → Accounted (suc n) (leg' ∷ legs) (record { leg = i; into = leg.leg_index } ∷ notes)
merge-Accounted n i leg leg' legs notes at e a = record {
  covered = λ k p q. elim (≤-suc-cases k n q) [
    | inl s ↦ inr (inl (s ∙ sym at))
    | inr s ↦ elim (a.covered k p s) [
      | inl (inl x) ↦ inl (inl (x ∙ sym e))
      | inl (inr x) ↦ inl (inr x)
      | inr x ↦ inr (inr x)
    ]
  ];
  merged_into = (
    (omega (arith, at, a.in_range.0), inl (sym e)),
    All-map notes (λ m h. (h.0, elim h.1 [ inl x ↦ inl (x ∙ sym e) | inr x ↦ inr x ]))
        a.merged_into,
  );
  in_range = (omega (arith, e, a.in_range.0), All-map legs (λ l h. omega (arith, h)) a.in_range.1);
}

abbrev AccountedSoFar : ℕ → Sized → Type 0
AccountedSoFar n done = Accounted n done.0 done.1

merge_leg-Accounted :
    (n : ℕ) (leg : SizedLeg) (done next : Sized)
    → leg.leg_index ≡ suc n
    → AccountedSoFar n done
    → merge_leg leg done ≡ ok next
    → AccountedSoFar (suc n) next
unfolding merge_leg
merge_leg-Accounted n leg ([], notes) next i a e = cc
merge_leg-Accounted n leg (previous ∷ legs, notes) next i a e =
    subst (AccountedSoFar (suc n)) (ok-injective e) (
      merge-Accounted n leg.leg_index previous (merged previous leg.fraction leg.qty) legs notes i
        refl a)

merged_or_appended-Accounted :
    (small : Bool) (n : ℕ) (leg : SizedLeg) (done next : Sized)
    → leg.leg_index ≡ suc n
    → AccountedSoFar n done
    → merged_or_appended small leg done ≡ ok next
    → AccountedSoFar (suc n) next
merged_or_appended-Accounted true n leg done next i a e = merge_leg-Accounted n leg done next i a e
merged_or_appended-Accounted false n leg (legs, notes) next i a e =
    subst (AccountedSoFar (suc n)) (ok-injective e) (push-Accounted n leg legs notes i a)

size_leg-Accounted :
    (filters : SymbolFilters) (side : SignalSide) (n : ℕ) (t f q : Decimal) (done next : Sized)
    → AccountedSoFar n done
    → size_leg filters side (suc n) t f q done ≡ ok next
    → AccountedSoFar (suc n) next
unfolding size_leg
size_leg-Accounted filters side n t f q done next a e =
    let (price, p, e') = >>=-eq-ok (round_price_to_tick t filters.tick_size side tp) _ e in
    merged_or_appended-Accounted _ n _ done next refl a e'

recount : (i j : ℕ) (done : Sized) → i ≡ j → AccountedSoFar i done → AccountedSoFar j done
recount i j done e a = subst (λ k. AccountedSoFar k done) e a

size_legs-Accounted :
    (filters : SymbolFilters) (side : SignalSide) (n : ℕ) (ts fs qs : List Decimal)
    (done next : Sized)
    → AccountedSoFar n done
    → size_legs filters side (suc n) ts fs qs done ≡ ok next
    → AccountedSoFar (length ts + n) next
unfolding size_legs
size_legs-Accounted filters side n [] [] [] done next a e =
    recount n _ next (omega arith) (subst (AccountedSoFar n) (ok-injective e) a)
size_legs-Accounted filters side n [] [] (q ∷ qs) done next a e = cc
size_legs-Accounted filters side n [] (f ∷ fs) qs done next a e = cc
size_legs-Accounted filters side n (t ∷ ts) [] qs done next a e = cc
size_legs-Accounted filters side n (t ∷ ts) (f ∷ fs) [] done next a e = cc
size_legs-Accounted filters side n (t ∷ ts) (f ∷ fs) (q ∷ qs) done next a e =
    let (step, made, e') = >>=-eq-ok (size_leg filters side (suc n) t f q done) _ e in
    let rest =
      size_legs-Accounted filters side (suc n) ts fs qs step next
        (size_leg-Accounted filters side n t f q done step a made) e' in
    recount _ _ next (omega arith) rest

Elem-latest_last :
    {A : Type 0} (f : A → ℕ) (k : ℕ) (xs acc : List A)
    → Elem k (map f xs) ⊎ Elem k (map f acc)
    → Elem k (map f (latest_last xs acc))
Elem-latest_last f k [] acc (inl h) = absurd h
Elem-latest_last f k [] acc (inr h) = h
Elem-latest_last f k (x ∷ xs) acc (inl (inl h)) = Elem-latest_last f k xs (x ∷ acc) (inr (inl h))
Elem-latest_last f k (x ∷ xs) acc (inl (inr h)) = Elem-latest_last f k xs (x ∷ acc) (inl h)
Elem-latest_last f k (x ∷ xs) acc (inr h) = Elem-latest_last f k xs (x ∷ acc) (inr (inr h))

All-latest_last :
    {A : Type 0} (P : A → Type 0) (xs acc : List A)
    → All P xs
    → All P acc
    → All P (latest_last xs acc)
All-latest_last P [] acc h k = k
All-latest_last P (x ∷ xs) acc h k = All-latest_last P xs (x ∷ acc) h.1 (h.0, k)

latest_last-Accounted :
    (n : ℕ) (done : Sized)
    → AccountedSoFar n done
    → Accounted n (latest_last done.0 []) (latest_last done.1 [])
latest_last-Accounted n (legs, notes) a = record {
  covered = λ k p q. elim (a.covered k p q) [
    | inl h ↦ inl (Elem-latest_last _ k legs [] (inl h))
    | inr h ↦ inr (Elem-latest_last _ k notes [] (inl h))
  ];
  merged_into =
      All-latest_last _ notes []
        (All-map notes (λ m h. (h.0, Elem-latest_last _ m.into legs [] (inl h.1))) a.merged_into)
        tt;
  in_range = All-latest_last _ legs [] a.in_range tt;
}

none-Accounted : Accounted 0 [] []
none-Accounted = record { covered = λ k p q. absurd (omega arith); merged_into = tt; in_range = tt }

-- Each target of a sized position has a leg of its own, or a note that it was merged into the leg
-- of an earlier target; no leg index is beyond the targets.
pub size_position-Accounted :
    (margin : Decimal) (leverage : ℕ) (entry : Decimal) (targets : List Decimal)
    (filters : SymbolFilters) (side : SignalSide) (fractions : Option (List Decimal))
    (r : SizingResult)
    → size_position margin leverage entry targets filters side fractions ≡ ok r
    → Accounted (length targets) r.legs r.notes
unfolding size_position
size_position-Accounted margin leverage entry targets filters side fractions r e =
    Returns-elim Whole _ r
      (>>=-Returns Whole (validate_sizing_inputs margin leverage entry targets filters) _ λ _ _.
        >>=-Returns Whole (fractions_or_equal (length targets) fractions) _ λ fs _.
          >>=-Returns Whole (validate_fractions fs (length targets)) _ λ _ _.
            >>=-Returns Whole
              (floor_to_step (div (mul margin (of_ℕ leverage)) entry) filters.step_size) _
              λ qty _.
                >>=-Returns Whole
                  (raise_if (le qty (of_ℕ 0) || lt qty filters.min_qty)
                    "total quantity is below minQty")
                  _
                  λ _ _.
                    >>=-Returns Whole
                      (raise_if (lt (mul qty entry) filters.min_notional)
                        "total notional is below minNotional")
                      _
                      λ _ _. >>=-Returns Whole (leg_quantities qty filters.step_size fs) _ λ qs _.
                        >>=-Returns Whole
                          (size_legs filters side 1 targets fs (add_to_first (sub qty (sum qs)) qs)
                            ([], []))
                          _
                          λ sized made.
                            ok-Returns Whole
                              (latest_last-Accounted _ sized (whole fs _ sized made)))
      e
  where
    Whole : SizingResult → Type 0
    Whole q = Accounted (length targets) q.legs q.notes

    whole :
        (fs qs : List Decimal) (sized : Sized)
        → size_legs filters side 1 targets fs qs ([], []) ≡ ok sized
        → AccountedSoFar (length targets) sized
    whole fs qs sized made =
        recount _ _ sized (omega arith)
          (size_legs-Accounted filters side 0 targets fs qs ([], []) sized none-Accounted made)
