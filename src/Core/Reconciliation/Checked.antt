-- ===== src/Core/Reconciliation/Checked.antt =====
-- services/core_engine/reconciliation.py: what a pass does to each of the trades.
use mrrik_ai_bot.Prelude.{
  ℕ, String, arith, ◌≡◌, refl, sym, subst, ◌∙◌, true≢false, err≢ok, Bool, true, false, List, [],
  ◌∷◌, Option, none, some, Result, ok, err, ◌==◌, if◌then◌else◌,
}
use mrrik_ai_bot.Exchange.{
  Exchange, World, ExchangeOrder, PositionSnapshot, call, get_position, get_open_algo_orders,
  to_binance_position_side,
}
use mrrik_ai_bot.Signal.Types.{SignalSide}
use mrrik_ai_bot.Exchange.Action.{resume, ◌>>=◌}
use mrrik_ai_bot.Exchange.Trace.{Adds, Adds-refl, Adds-trans}
use mrrik_ai_bot.Core.Trades.{Trade, trade_closed, reconciled_closed_unknown, close_trade}
use mrrik_ai_bot.Core.Repository.{is_active}
use mrrik_ai_bot.Core.Reconciliation.{
  Verdict, Bench, on_exchange, compare, reconcile_trade, Round, account_key, bench, visit,
  reconcile_from, reconcile_open_trades, empty_result,
}
use mrrik_ai_bot.Core.Reconciliation.Quiet.{Repairing, repair_orders-Quiet, compare-Reviewed}
use mrrik_ai_bot.Core.Reconciliation.Passes.{Repaired, step-Repaired, reconcile_from-Repaired}
use mrrik_ai_bot.Core.Reconciliation.Counted.{Counted, reconcile_from-Counted}

-- The trade was closed since nothing of it is left on the exchange.
pub record Missing (t' : Trade) : Type 0 where
  pub status : t'.status ≡ trade_closed
  pub reason : t'.closed_reason ≡ some reconciled_closed_unknown

-- What becomes of a trade, by the position and by the answer to the question for its orders: it is
-- closed exactly where there is neither, and keeps its status anywhere else.
abbrev pub Compared : Trade → Trade → Option PositionSnapshot → Result (List ExchangeOrder) → Type 0
Compared t t' position (err e) = t' ≡ t
Compared t t' none (ok []) = Missing t'
Compared t t' none (ok (o ∷ os)) = t' ≡ t
Compared t t' (some position) (ok orders) = t'.status ≡ t.status

same_key_refl : (k : ℕ) → (k == k) ≡ true
same_key_refl k = ground arith

module _ (E : Exchange) where
  -- What becomes of a trade, by the answer to the question for its position.
  abbrev pub Settled : Trade → Trade → Result (Option PositionSnapshot) × World E → Type 0
  Settled t t' (err e, w) = t' ≡ t
  Settled t t' (ok position, w) =
      Compared t t' position (call E (get_open_algo_orders t.symbol) w).0

  -- The account once both questions are asked; the second is left out where the first one raised.
  abbrev pub questioned : Trade → Result (Option PositionSnapshot) × World E → World E
  questioned t (err e, w) = w
  questioned t (ok position, w) = (call E (get_open_algo_orders t.symbol) w).1

  -- From one state of an account to a later one the exchange was asked for the trade's position and
  -- its orders, and the answers decided what became of the trade.
  pub record Asked (t t' : Trade) (from to : World E) : Type 0 where
    pub start : World E
    pub before : Adds E Repairing from start
    pub after :
        Adds E Repairing
          (questioned t (call E (get_position t.symbol (to_binance_position_side t.side)) start))
          to
    pub settled :
        Settled t t' (call E (get_position t.symbol (to_binance_position_side t.side)) start)

  -- What a pass does to one trade, with the accounts before and after it.
  pub record Visited (connect : Trade → Result (Unit {0})) (accounts accounts' : ℕ → World E)
      (t t' : Trade) : Type 0 where
    pub not_active : is_active t.status ≡ false → t' ≡ t
    pub no_client : is_active t.status ≡ true → (e : String) → connect t ≡ err e → t' ≡ t
    pub asked :
        is_active t.status ≡ true
        → connect t ≡ ok tt
        → Asked t t' (accounts (account_key E t.user_id)) (accounts' (account_key E t.user_id))

  -- The same of each trade.
  abbrev pub Each : (Trade → Trade → Type 0) → List Trade → List Trade → Type 0
  Each P [] [] = Unit
  Each P [] (t' ∷ ts') = ⊥
  Each P (t ∷ ts) [] = ⊥
  Each P (t ∷ ts) (t' ∷ ts') = P t t' × Each P ts ts'

  -- A pass: each trade as it was visited, and the counts.
  pub record Checked (connect : Trade → Result (Unit {0})) (trades : List Trade)
      (accounts : ℕ → World E) (p : List Trade × Round E) : Type 0 where
    pub each : Each (Visited connect accounts p.1.accounts) trades p.0
    pub counts : Counted E trades p.0 (empty_result E) p.1.result

  compare-Compared :
      (t : Trade) (w : World E) (n : ℕ) (p : Option PositionSnapshot) (orders : List ExchangeOrder)
      → Compared t
          (compare E t p orders (record { world = w; trade = t; repaired = n })).1.trade
          p
          (ok orders)
  unfolding close_trade
  compare-Compared t w n none [] = record { status = refl; reason = refl }
  compare-Compared t w n none (o ∷ os) = refl
  compare-Compared t w n (some p) orders =
      let b : Bench E = record { world = w; trade = t; repaired = n } in
      (repair_orders-Quiet E t.signal_id t orders b).same_status

  after_orders :
      (t : Trade) (p : Option PositionSnapshot) (o : Result (List ExchangeOrder) × World E)
      → let d : Bench E = record { world = o.1; trade = t; repaired = 0 } in
        let b = (resume (λ orders. compare E t p orders) (o.0, d)).1 in
        Adds E Repairing o.1 b.world × Compared t b.trade p o.0
  after_orders t p (err e, w) = (Adds-refl E Repairing w, refl)
  after_orders t p (ok orders, w) = (
    (compare-Reviewed E t p orders (record { world = w; trade = t; repaired = 0 })).calls,
    compare-Compared t w 0 p orders,
  )

  reconcile_trade-Asked :
      (t : Trade) (w : World E)
      → let b : Bench E = record { world = w; trade = t; repaired = 0 } in
        Asked t (reconcile_trade E t b).1.trade w (reconcile_trade E t b).1.world
  unfolding reconcile_trade
  reconcile_trade-Asked t w =
      let (after, settled) = go (call E (get_position t.symbol side) w) in
      record { start = w; before = Adds-refl E Repairing w; after = after; settled = settled }
    where
      side : SignalSide
      side = to_binance_position_side t.side

      rest : Result (Option PositionSnapshot) × World E → Result Verdict × Bench E
      rest o =
          resume
            (λ p. on_exchange E (call E (get_open_algo_orders t.symbol)) >>= λ orders.
              compare E t p orders)
            (o.0, record { world = o.1; trade = t; repaired = 0 })

      go :
          (o : Result (Option PositionSnapshot) × World E)
          → Adds E Repairing (questioned t o) (rest o).1.world × Settled t (rest o).1.trade o
      go (err e, v) = (Adds-refl E Repairing v, refl)
      go (ok p, v) = after_orders t p (call E (get_open_algo_orders t.symbol) v)

  Visited-widen :
      (connect : Trade → Result (Unit {0})) (f g h k : ℕ → World E) (t t' : Trade)
      → Repaired E f g
      → Visited connect g h t t'
      → Repaired E h k
      → Visited connect f k t t'
  Visited-widen connect f g h k t t' p v q = record {
    not_active = v.not_active;
    no_client = v.no_client;
    asked = λ a c.
        let u = account_key E t.user_id in
        let asked = v.asked a c in
        record {
          start = asked.start;
          before = Adds-trans E Repairing (f u) (g u) asked.start (p u) asked.before;
          after = Adds-trans E Repairing _ (h u) (k u) asked.after (q u);
          settled = asked.settled;
        };
  }

  Each-map :
      (P Q : Trade → Trade → Type 0) (ts ts' : List Trade)
      → ((t t' : Trade) → P t t' → Q t t')
      → Each P ts ts'
      → Each Q ts ts'
  Each-map P Q [] [] f h = tt
  Each-map P Q [] (t' ∷ ts') f h = absurd h
  Each-map P Q (t ∷ ts) [] f h = absurd h
  Each-map P Q (t ∷ ts) (t' ∷ ts') f h = (f t t' h.0, Each-map P Q ts ts' f h.1)

  visit-Asked :
      (t : Trade) (r : Round E)
      → let p = visit E (ok tt) t r in
        Asked t p.0 (r.accounts (account_key E t.user_id)) (p.1.accounts (account_key E t.user_id))
  visit-Asked t r =
      let k = account_key E t.user_id in
      let o = reconcile_trade E t (bench E r t) in
      subst (λ b. Asked t o.1.trade (r.accounts k) (if b then o.1.world else r.accounts k))
        (sym (same_key_refl k)) (reconcile_trade-Asked t (r.accounts k))

  turn-Visited :
      (c : Bool) (o : Result (Unit {0})) (connect : Trade → Result (Unit {0})) (t : Trade)
      (r : Round E)
      → is_active t.status ≡ c
      → connect t ≡ o
      → let p = if c then visit E o t r else (t, r) in Visited connect r.accounts p.1.accounts t p.0
  turn-Visited false o connect t r a e = record {
    not_active = λ _. refl;
    no_client = λ b. absurd (true≢false (sym b ∙ a));
    asked = λ b. absurd (true≢false (sym b ∙ a));
  }
  turn-Visited true (err x) connect t r a e = record {
    not_active = λ b. absurd (true≢false (sym a ∙ b));
    no_client = λ _ y _. refl;
    asked = λ _ c. absurd (err≢ok (sym e ∙ c));
  }
  turn-Visited true (ok client) connect t r a e = record {
    not_active = λ b. absurd (true≢false (sym a ∙ b));
    no_client = λ _ y c. absurd (err≢ok (sym c ∙ e));
    asked = λ _ _. visit-Asked t r;
  }

  reconcile_from-Each :
      (connect : Trade → Result (Unit {0})) (ts : List Trade) (r : Round E)
      → let p = reconcile_from E connect ts r in
        Each (Visited connect r.accounts p.1.accounts) ts p.0
  unfolding reconcile_from
  reconcile_from-Each connect [] r = tt
  reconcile_from-Each connect (t ∷ ts) r =
      let next = if is_active t.status then visit E (connect t) t r else (t, r) in
      let last = reconcile_from E connect ts next.1 in
      let f = r.accounts in
      let g = next.1.accounts in
      let h = last.1.accounts in
      (
        Visited-widen connect f f g h t next.0 (λ u. Adds-refl E Repairing (f u))
            (turn-Visited (is_active t.status) (connect t) connect t r refl refl)
            (reconcile_from-Repaired E connect ts next.1),
        Each-map (Visited connect g h) (Visited connect f h) ts last.0
            (λ s s' v.
              Visited-widen connect f g h h s s' (step-Repaired E (is_active t.status) connect t r)
                v λ u. Adds-refl E Repairing (h u))
            (reconcile_from-Each connect ts next.1),
      )

  -- For each active trade that has a client, a pass asks the exchange for its position and, unless
  -- that raises, for its orders, on the account of its user. The trade is closed where the exchange
  -- answers that there is neither, and keeps its status anywhere else; one that is not active or
  -- has no client is left as it is. The count of checked trades is that of the active ones, and
  -- the trades counted as closed and those still active make up the active ones.
  pub reconcile_open_trades-Checked :
      (connect : Trade → Result (Unit {0})) (trades : List Trade) (accounts : ℕ → World E)
      → Checked connect trades accounts (reconcile_open_trades E connect trades accounts)
  unfolding reconcile_open_trades
  reconcile_open_trades-Checked connect trades accounts = record {
    each = reconcile_from-Each connect trades _;
    counts = reconcile_from-Counted E connect trades _;
  }
