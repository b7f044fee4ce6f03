-- ===== src/Core/Entry/Waiting.antt =====
-- services/core_engine/orders.py: the wait for the entry fill ends.
use mrrik_ai_bot.Prelude.{
  ℕ, zero, suc, ◌+◌, ◌*◌, ◌≤◌, ◌≡◌, refl, ap, Bool, true, false, Option, none, some, Result, ok,
  err, arith, ltb, ge→not-ltb, ◌∙◌, if◌then◌else◌,
}
use native.Mathlib.Nat.{zero-add, suc-add}
use mrrik_ai_bot.Prelude.Text.{Text}
use mrrik_ai_bot.Decimal.{Decimal}
use mrrik_ai_bot.Signal.Types.{SignalSide}
use mrrik_ai_bot.Exchange.{Exchange, World, Call, get_position, get_open_orders, call, sleep}
use mrrik_ai_bot.Exchange.Action.{pure, ◌>>=◌, Keeps, >>=-Keeps}
use mrrik_ai_bot.Core.Orders.{TradeRef, OrderPlan}
use mrrik_ai_bot.Core.Entry.{
  poll_entry, next_round, verdict, matching_filled, read_mark, after_round, wait_loop, rounds,
}

-- `time.monotonic` never goes back, and `asyncio.sleep` takes at least as long as it is told.
pub record IsClock (E : Exchange) : Type 0 where
  pub call_later : (c : Call) (s : E.State) → E.now s ≤ E.now (E.perform c s).1
  pub pause_later : (ms : ℕ) (s : E.State) → E.now s + ms ≤ E.now (E.pause ms s)

module _ (E : Exchange) (clock : IsClock E) where
  abbrev Later : World E → World E → Type 0
  Later v w = E.now v.state ≤ E.now w.state

  Later-trans : (u v w : World E) → Later u v → Later v w → Later u w
  Later-trans u v w p q = omega arith

  call-Later : (c : Call) → Keeps Later (call E c)
  unfolding call
  call-Later c w = clock.call_later c w.state

  pure-Later : {A : Type 0} (a : A) → Keeps Later (pure a)
  pure-Later a w = omega arith

  read_mark-Later : Keeps Later (read_mark E)
  read_mark-Later w = omega arith

  next_round-Later :
      (trade : TradeRef) (id : Text) (v : Option Bool) → Keeps Later (next_round E trade id v)
  unfolding next_round
  next_round-Later trade id (some b) = pure-Later (some b)
  next_round-Later trade id none =
      >>=-Keeps Later Later-trans _ _ (call-Later (get_open_orders trade.symbol)) λ orders.
        pure-Later {A = Option Bool} (if matching_filled id orders then some true else none)

  -- A round of the wait takes no time back.
  poll_entry-Later :
      (trade : TradeRef) (plan : OrderPlan) (id : Text) (limit : Decimal) (side : SignalSide)
      → Keeps Later (poll_entry E trade plan id limit side)
  unfolding poll_entry
  poll_entry-Later trade plan id limit side =
      >>=-Keeps Later Later-trans _
        (λ position. read_mark E >>= λ mark.
          next_round E trade id (verdict plan.entry_price limit mark position))
        (call-Later (get_position trade.symbol side))
        λ position.
          >>=-Keeps Later Later-trans (read_mark E)
            (λ mark. next_round E trade id (verdict plan.entry_price limit mark position))
            read_mark-Later
            λ mark. next_round-Later trade id (verdict plan.entry_price limit mark position)

  after_round-cong :
      (j k : World E → Result Bool × World E) (o : Result (Option Bool) × World E)
      → j (sleep E 100 o.1) ≡ k (sleep E 100 o.1)
      → after_round E j o ≡ after_round E k o
  after_round-cong j k (err e, w) h = refl
  after_round-cong j k (ok (some b), w) h = refl
  after_round-cong j k (ok none, w) h = h

  pause_100 :
      (w : World E) (u : World E) → Later w u → E.now w.state + 100 ≤ E.now (sleep E 100 u).state
  unfolding sleep
  pause_100 w u h = omega (arith, clock.pause_later 100 u.state)

  wait_loop-suc :
      (fuel deadline : ℕ) (trade : TradeRef) (plan : OrderPlan) (id : Text) (limit : Decimal)
      (side : SignalSide) (w : World E)
      → deadline ≤ E.now w.state + 100 * fuel
      → wait_loop E (suc fuel) deadline trade plan id limit side w
        ≡ wait_loop E fuel deadline trade plan id limit side w
  unfolding wait_loop
  wait_loop-suc zero deadline trade plan id limit side w h =
      rw (ge→not-ltb (E.now w.state) deadline (omega arith))
  wait_loop-suc (suc fuel) deadline trade plan id limit side w h =
      let o = poll_entry E trade plan id limit side w in
      ap (λ x. if ltb (E.now w.state) deadline then x else (ok false, w))
        (after_round-cong (wait_loop E (suc fuel) deadline trade plan id limit side)
          (wait_loop E fuel deadline trade plan id limit side) o
          (wait_loop-suc fuel deadline trade plan id limit side (sleep E 100 o.1)
            (omega (arith, pause_100 w o.1 (poll_entry-Later trade plan id limit side w)))))

  -- A wait of some seconds has fuel for every round that its deadline leaves room for: with any more
  -- fuel it does the same, so it ends by its deadline or by a verdict, never by the fuel.
  pub wait_loop-fuel :
      (extra timeout_sec : ℕ) (trade : TradeRef) (plan : OrderPlan) (id : Text) (limit : Decimal)
      (side : SignalSide) (w : World E)
      → let deadline = E.now w.state + 1000 * timeout_sec in
        wait_loop E (extra + rounds timeout_sec) deadline trade plan id limit side w
        ≡ wait_loop E (rounds timeout_sec) deadline trade plan id limit side w
  wait_loop-fuel zero t trade plan id limit side w = rw zero-add
  wait_loop-fuel (suc extra) t trade plan id limit side w = rw suc-add (
      wait_loop-suc (extra + rounds t) _ trade plan id limit side w (omega arith)
      ∙ wait_loop-fuel extra t trade plan id limit side w)
