-- ===== src/Demo/Store/Frozen.antt =====
-- services/demo_engine/repository.py: what every reachable state of the tables has.
use mrrik_ai_bot.Prelude.{
  ℕ, and_elim, subst, ◌≢◌, ◌≤◌, ◌≡◌, inl, inr, refl, ◌∙◌, true, false, ◌&&◌, List, [], ◌∷◌, ◌++◌,
  Option, none, some, arith, Bool-cases, any,
}
use mrrik_ai_bot.Decimal.{Decimal}
use mrrik_ai_bot.Demo.TradeLogic.{Reason}
use mrrik_ai_bot.Demo.Store.{
  DemoTrade, trade_closed, Store, find_trade, fill_legs, closed_trade, is_open_for, same_key,
  is_open, has_open_demo_trade,
}
use mrrik_ai_bot.Demo.Store.Frames.{
  find_trade-append, find_trade-other, count_if, count_if-append, not_any-count_if, count_if-update,
  Rising, Rising-append, Rising-update,
}
use mrrik_ai_bot.Demo.Store.Moves.{
  Move, joins, opens, fills, closes, apply, Allowed, Reach, Reach-invariant, OpenTradeOf,
}

-- A closed trade stands in the tables under the key.
abbrev pub Rests : ℕ → DemoTrade → Store → Type 0
Rests i t s = find_trade i s.trades ≡ some t

open_is_other :
    (i j : ℕ) (t : DemoTrade) (s : Store)
    → t.status ≡ trade_closed
    → Rests i t s
    → OpenTradeOf j s
    → j ≢ i
open_is_other i j t s closed h (other, found, is_open) e = cc (closed, h, found, is_open, e)

Rests-apply :
    (i : ℕ) (t : DemoTrade) (m : Move) (s : Store)
    → t.status ≡ trade_closed
    → Allowed m s
    → Rests i t s
    → Rests i t (apply m s)
unfolding fill_legs closed_trade
Rests-apply i t (joins u start) s closed a h = h
Rests-apply i t (opens u k new) s closed a h = find_trade-append i s.trades (new ∷ []) t h
Rests-apply i t (fills j ks) s closed a h =
    find_trade-other (fill_legs ks) (λ _. refl) j i s.trades (open_is_other i j t s closed h a) ∙ h
Rests-apply i t (closes j u reason roi pnl touched) s closed a h =
    find_trade-other (closed_trade reason roi pnl touched) (λ _. refl) j i s.trades
      (open_is_other i j t s closed h (a.0, a.1, a.2))
    ∙ h

-- A closed trade is never changed again: whatever is reached, it stands there as it was.
pub Reach-Rests :
    (i : ℕ) (t : DemoTrade) (s s' : Store)
    → Reach s s'
    → t.status ≡ trade_closed
    → Rests i t s
    → Rests i t s'
Reach-Rests i t s s' r closed =
    Reach-invariant (Rests i t) (λ m u a. Rests-apply i t m u closed a) s s' r

-- Keys grow and are below the next key, and a user has at most one open trade of a signal.
pub record IsStore (s : Store) : Type 0 where
  pub keys : Rising s.next_trade_id s.trades
  pub single : (u k : ℕ) → count_if (is_open_for u k) s.trades ≤ 1

fills-fewer :
    (u k : ℕ) (ks : List ℕ) (t : DemoTrade)
    → is_open_for u k (fill_legs ks t) ≡ true
    → is_open_for u k t ≡ true
unfolding fill_legs
fills-fewer u k ks t h = h

closes-fewer :
    (u k : ℕ) (reason : Reason) (roi pnl : Decimal) (touched : List ℕ) (t : DemoTrade)
    → is_open_for u k (closed_trade reason roi pnl touched t) ≡ true
    → is_open_for u k t ≡ true
unfolding closed_trade
closes-fewer u k reason roi pnl touched t h = ground arith

same_key-eq : (o : Option ℕ) (u v : ℕ) → o ≡ some u → same_key o v ≡ true → u ≡ v
same_key-eq none u v e h = cc
same_key-eq (some w) u v e h = ground arith

open_for-keys :
    (v l u k : ℕ) (t : DemoTrade)
    → t.user_id ≡ some u
    → t.signal_id ≡ some k
    → is_open_for v l t ≡ true
    → (u ≡ v) × (k ≡ l)
open_for-keys v l u k t eu ek h =
    let (keys, at_open) = and_elim (same_key t.user_id v && same_key t.signal_id l) _ h in
    let (at_user, at_signal) = and_elim (same_key t.user_id v) _ keys in
    (same_key-eq t.user_id u v eu at_user, same_key-eq t.signal_id k l ek at_signal)

-- A row is an open one of one user and one signal at most.
opens-counts :
    (u k v l : ℕ) (t : DemoTrade) (ts : List DemoTrade)
    → t.user_id ≡ some u
    → t.signal_id ≡ some k
    → any (is_open_for u k) ts ≡ false
    → count_if (is_open_for v l) ts ≤ 1
    → count_if (is_open_for v l) (ts ++ t ∷ []) ≤ 1
opens-counts u k v l t ts eu ek none_open h = elim (Bool-cases (is_open_for v l t)) [
  | inl passes ↦
      let (of_user, of_signal) = open_for-keys v l u k t eu ek passes in
      let none_before = not_any-count_if (is_open_for u k) ts none_open in
      let none_of_both =
        subst (λ x. count_if (is_open_for x l) ts ≡ 0) of_user
          (subst (λ x. count_if (is_open_for u x) ts ≡ 0) of_signal none_before) in
      ground (arith, count_if-append (is_open_for v l) ts (t ∷ []), none_of_both)
  | inr fails ↦ ground (arith, count_if-append (is_open_for v l) ts (t ∷ []))
]

IsStore-apply : (m : Move) (s : Store) → Allowed m s → IsStore s → IsStore (apply m s)
unfolding has_open_demo_trade fill_legs closed_trade
IsStore-apply (joins u start) s a w = record { keys = w.keys; single = w.single }
IsStore-apply (opens u k t) s a w = record {
  keys = Rising-append s.trades t s.next_trade_id a.0 w.keys;
  single = λ v l. opens-counts u k v l t s.trades a.1 a.2 a.4 (w.single v l);
}
IsStore-apply (fills i ks) s a w = record {
  keys = Rising-update i (fill_legs ks) (λ _. refl) s.next_trade_id s.trades w.keys;
  single = λ u k. omega (
    arith,
    count_if-update (is_open_for u k) i (fill_legs ks) s.trades (fills-fewer u k ks),
    w.single u k,
  );
}
IsStore-apply (closes i u reason roi pnl touched) s a w = record {
  keys =
      Rising-update i (closed_trade reason roi pnl touched) (λ _. refl) s.next_trade_id s.trades
        w.keys;
  single = λ v k. omega (
    arith,
    count_if-update (is_open_for v k) i (closed_trade reason roi pnl touched) s.trades
        (closes-fewer v k reason roi pnl touched),
    w.single v k,
  );
}

pub Reach-IsStore : (s s' : Store) → Reach s s' → IsStore s → IsStore s'
Reach-IsStore = Reach-invariant IsStore IsStore-apply
