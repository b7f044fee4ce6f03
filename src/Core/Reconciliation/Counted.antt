-- ===== src/Core/Reconciliation/Counted.antt =====
-- services/core_engine/reconciliation.py: how a pass counts the trades.
use mrrik_ai_bot.Prelude.{
  ℕ, suc, ◌+◌, arith, ◌≡◌, refl, ap, sym, ◌∙◌, Bool, true, false, List, [], ◌∷◌, Result, ok, err,
  if◌then◌else◌,
}
use mrrik_ai_bot.Exchange.{Exchange}
use mrrik_ai_bot.Core.Trades.{
  Trade, TradeStatus, trade_pending_entry, trade_open, trade_skipped, trade_error, trade_closed,
}
use mrrik_ai_bot.Core.Repository.{is_active}
use mrrik_ai_bot.Core.Reconciliation.{
  Verdict, ReconcileResult, tally, closed_missing, without_position, without_signal, examined,
  reconcile_trade, Round, bench, visit, reconcile_from,
}
use mrrik_ai_bot.Core.Reconciliation.Quiet.{status_after, reconcile_trade-Reviewed}

abbrev one_if : Bool → ℕ
one_if true = 1
one_if false = 0

-- How many of the trades are active.
unfoldable pub count_active : List Trade → ℕ
count_active [] = 0
count_active (t ∷ ts) = one_if (is_active t.status) + count_active ts

module _ (E : Exchange) where
  -- The number of checked trades is that of the active ones, and the active trades that are left
  -- and those counted as closed make up the active ones.
  pub record Counted (ts ts' : List Trade) (r r' : ReconcileResult) : Type 0 where
    pub checked : r'.checked_trades ≡ r.checked_trades + count_active ts
    pub closed :
        r'.closed_missing_positions + count_active ts'
        ≡ r.closed_missing_positions + count_active ts

  tally-checked :
      (i : ℕ) (v : Result Verdict) (n : ℕ) (r : ReconcileResult)
      → (tally E i v n r).checked_trades ≡ suc r.checked_trades
  tally-checked i (err e) n r = refl
  tally-checked i (ok closed_missing) n r = refl
  tally-checked i (ok without_position) n r = refl
  tally-checked i (ok without_signal) n r = refl
  tally-checked i (ok examined) n r = refl

  still : (s : TradeStatus) (n : ℕ) → is_active s ≡ true → n + one_if (is_active s) ≡ suc n
  still trade_pending_entry n a = omega arith
  still trade_open n a = omega arith
  still trade_closed n a = cc
  still trade_skipped n a = cc
  still trade_error n a = cc

  tally-closed :
      (i : ℕ) (v : Result Verdict) (n : ℕ) (r : ReconcileResult) (s : TradeStatus)
      → is_active s ≡ true
      → (tally E i v n r).closed_missing_positions + one_if (is_active (status_after E v s))
        ≡ suc r.closed_missing_positions
  tally-closed i (ok closed_missing) n r s a = omega arith
  tally-closed i (err e) n r s a = still s r.closed_missing_positions a
  tally-closed i (ok without_position) n r s a = still s r.closed_missing_positions a
  tally-closed i (ok without_signal) n r s a = still s r.closed_missing_positions a
  tally-closed i (ok examined) n r s a = still s r.closed_missing_positions a

  -- What one turn of the loop adds.
  record Visited (t : Trade) (r : ReconcileResult) (p : Trade × Round E) : Type 0 where
    checked : p.1.result.checked_trades ≡ r.checked_trades + one_if (is_active t.status)
    closed :
        p.1.result.closed_missing_positions + one_if (is_active p.0.status)
        ≡ r.closed_missing_positions + one_if (is_active t.status)

  one_more : (n m : ℕ) (c : Bool) → c ≡ true → m ≡ suc n → m ≡ n + one_if c
  one_more n m c e h = h ∙ (add_one n ∙ ap (λ b. n + one_if b) (sym e))
    where
      add_one : (k : ℕ) → suc k ≡ k + 1
      add_one k = omega arith

  none_more : (n : ℕ) (c : Bool) → c ≡ false → n ≡ n + one_if c
  none_more n c e = add_none n ∙ ap (λ b. n + one_if b) (sym e)
    where
      add_none : (k : ℕ) → k ≡ k + 0
      add_none k = omega arith

  chain : (a b c x y : ℕ) → b ≡ a + x → c ≡ b + y → c ≡ a + (x + y)
  chain a b c x y p q = omega arith

  chain_closed :
      (a b c x x' y y' : ℕ) → b + x' ≡ a + x → c + y' ≡ b + y → c + (x' + y') ≡ a + (x + y)
  chain_closed a b c x x' y y' p q = omega arith

  visit-Visited :
      (o : Result (Unit {0})) (t : Trade) (r : Round E)
      → is_active t.status ≡ true
      → Visited t r.result (visit E o t r)
  visit-Visited (err e) t r a = record {
    checked = one_more _ _ _ a refl;
    closed = one_more _ _ _ a (tally-closed t.id (err e) 0 r.result t.status a);
  }
  visit-Visited (ok client) t r a =
      let o = reconcile_trade E t (bench E r t) in
      record {
        checked = one_more _ _ _ a (tally-checked t.id o.0 o.1.repaired r.result);
        closed = one_more _ _ _ a (
            ap
              (λ s.
                (tally E t.id o.0 o.1.repaired r.result).closed_missing_positions
                + one_if (is_active s))
              (reconcile_trade-Reviewed E t (bench E r t)).status
            ∙ tally-closed t.id o.0 o.1.repaired r.result t.status a);
      }

  turn-Visited :
      (c : Bool) (connect : Trade → Result (Unit {0})) (t : Trade) (r : Round E)
      → is_active t.status ≡ c
      → Visited t r.result (if c then visit E (connect t) t r else (t, r))
  turn-Visited true connect t r a = visit-Visited (connect t) t r a
  turn-Visited false connect t r a = record { checked = none_more _ _ a; closed = refl }

  pub reconcile_from-Counted :
      (connect : Trade → Result (Unit {0})) (ts : List Trade) (r : Round E)
      → Counted ts
          (reconcile_from E connect ts r).0
          r.result
          (reconcile_from E connect ts r).1.result
  unfolding reconcile_from count_active
  reconcile_from-Counted connect [] r = record { checked = omega arith; closed = refl }
  reconcile_from-Counted connect (t ∷ ts) r =
      let turn = turn-Visited (is_active t.status) connect t r refl in
      let next = if is_active t.status then visit E (connect t) t r else (t, r) in
      let rest = reconcile_from-Counted connect ts next.1 in
      record {
        checked = chain _ _ _ _ _ turn.checked rest.checked;
        closed = chain_closed _ _ _ _ _ _ _ turn.closed rest.closed;
      }
