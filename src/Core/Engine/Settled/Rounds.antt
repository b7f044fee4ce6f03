-- ===== src/Core/Engine/Settled/Rounds.antt =====
-- services/core_engine/engine.py: the round of one user leaves no trade behind that waits for its
-- entry.
use mrrik_ai_bot.Prelude.{
  ℕ, ◌≡◌, ◌⊎◌, inl, inr, refl, ◌∙◌, ap, ◌&&◌, Option, none, some, Result, ok, err, if-holds,
}
use mrrik_ai_bot.Signal.Types.{SignalSide}
use mrrik_ai_bot.Exchange.{Exchange, World}
use mrrik_ai_bot.Exchange.Action.{Action, pure, resume, Ends, resume-Ends}
use mrrik_ai_bot.Core.Risk.{ExecutionPlan}
use mrrik_ai_bot.Core.Orders.{
  TradeRef, OpenTradeResult, OpenStatus, opened, skipped, error, emergency_closed,
  emergency_close_failed,
}
use mrrik_ai_bot.Core.Entry.{place_initial_orders}
use mrrik_ai_bot.Prelude.Text.{Text}
use mrrik_ai_bot.Core.Engine.{set_account}
use mrrik_ai_bot.Core.Trades.{Trade, trade_error}
use mrrik_ai_bot.Core.Repository.{
  Signal, Tables, create_trade_from_plan, pending_trade, set_trade_entry_order, mark_trade_status,
  status_of,
}
use mrrik_ai_bot.Core.Engine.{
  CoreEngineConfig, User, Credentials, Rows, Bus, SkipReason, Desk, Step, on_account, publish_skip,
  publish_error, exchange_operation_failed, precheck_reason, credentials_not_valid,
  missing_credentials,
}
use mrrik_ai_bot.Core.Engine.Preparation.{Prepared, passed, ready, prepare}
use mrrik_ai_bot.Core.Engine.Users.{
  Counted, counted_opened, counted_skipped, counted_error, trade_ref, orders_of, is_open,
  close_quietly, finish, after_orders, execute, fail, recover, recover_if, open_trade,
  after_prepare, trade_for, skip_user, with_credentials, unless_refused, handle_user,
}
use mrrik_ai_bot.Core.Engine.Untouched.{publish-Untouched, publish_skip-Untouched}
use mrrik_ai_bot.Core.Engine.Settled.{
  Settles, then_counted, finish_opened-Settles, finish_skipped-Settles,
  finish_emergency_closed-Settles, finish_close_failed-Settles, finish_error-Settles,
}
use mrrik_ai_bot.Core.Engine.Held.{
  IsFresh, with_trade, Holds, Anything, Final, on_trade-Holds, same-Holds, publish-Ends,
}
use mrrik_ai_bot.Core.Engine.Settled.Preparing.{prepare-Same}

module _ (E : Exchange) (config : CoreEngineConfig) (rows : Rows) (bus : Bus) (s : Tables)
    (fresh : IsFresh s) where
  abbrev Settling : Result Counted × Desk E → Type 0
  Settling o = Settles E config rows bus s fresh o

  finish-Settles :
      (u i : ℕ) (trade : TradeRef) (plan : ExecutionPlan) (result : OpenTradeResult)
      (status : OpenStatus) (d : Desk E)
      → i ≡ s.next_trade_id
      → Holds s Anything d
      → Settling (finish E config rows bus u i trade plan result status d)
  finish-Settles u i trade plan result opened =
      finish_opened-Settles E config rows bus s fresh u i plan result
  finish-Settles u i trade plan result skipped =
      finish_skipped-Settles E config rows bus s fresh u i
  finish-Settles u i trade plan result error =
      finish_error-Settles E config rows bus s fresh u i trade result.reason
  finish-Settles u i trade plan result emergency_closed =
      finish_emergency_closed-Settles E config rows bus s fresh u i
  finish-Settles u i trade plan result emergency_close_failed =
      finish_close_failed-Settles E config rows bus s fresh u i result.reason

  set_trade_entry_order-id : (id : Option Text) (t : Trade) → (set_trade_entry_order id t).id ≡ t.id
  set_trade_entry_order-id none t = refl
  set_trade_entry_order-id (some x) t = refl

  -- Whatever the exchange answers or raises.
  execute-Settles :
      (u i : ℕ) (trade : TradeRef) (plan : ExecutionPlan) (d : Desk E)
      → i ≡ s.next_trade_id
      → Holds s Anything d
      → Settling (execute E config rows bus u i trade plan d)
  unfolding execute
  execute-Settles u i trade plan d at h =
      resume-Ends (λ _. Holds s Anything) (λ c. Holds s (Final c)) (Holds s Anything)
        (after_orders E config rows bus u i trade plan) (on_account E u orders d)
        (ordered (orders (d.accounts u)))
        λ result x g. finish-Settles u i trade plan result result.status _ at (
          on_trade-Holds s fresh Anything Anything i (set_trade_entry_order result.entry_order_id) x
            at (set_trade_entry_order-id result.entry_order_id) (λ t _. tt) g)
    where
      orders : Action (World E) OpenTradeResult
      orders = place_initial_orders E trade (orders_of plan) config.entry_mode config.entry_guard

      ordered :
          (o : Result OpenTradeResult × World E)
          → Ends
              (λ _. Holds s Anything)
              (Holds s Anything)
              (o.0, record d { accounts = set_account E u o.1 d.accounts })
      ordered (ok r, w) = same-Holds s fresh Anything d _ refl h
      ordered (err e, w) = same-Holds s fresh Anything d _ refl h

  fail-Settles :
      (u i : ℕ) (d : Desk E)
      → i ≡ s.next_trade_id
      → Holds s Anything d
      → Settling (fail E config rows bus u i d)
  unfolding mark_trade_status
  fail-Settles u i d at h = then_counted E config rows bus s fresh counted_error _ (
      publish-Ends s fresh (Final counted_error) bus _ _ (
        on_trade-Holds s fresh Anything (Final counted_error) i (mark_trade_status trade_error) d at
          (λ _. refl) (λ t _. inr (inr refl)) h))

  recover-Settles :
      (u i : ℕ) (trade : TradeRef) (d : Desk E)
      → i ≡ s.next_trade_id
      → Holds s Anything d
      → Settling (recover E config rows bus u i trade d)
  unfolding recover
  recover-Settles u i trade d at h =
      if-holds (λ (o : Result Counted × Desk E). Settling o) (is_open (status_of i d.tables.trades))
        _ _ (λ _. fail-Settles u i d at h)
        λ _.
          fail-Settles u i (close_quietly E config rows bus u trade d).1 at
            (same-Holds s fresh Anything d _ refl h)

  recovered-Settles :
      (u i : ℕ) (trade : TradeRef) (o : Result Counted × Desk E)
      → i ≡ s.next_trade_id
      → Settling o
      → Settling (recover_if E config rows bus u i trade o.0 o.1)
  recovered-Settles u i trade (ok c, d) at h = h
  recovered-Settles u i trade (err e, d) at h = recover-Settles u i trade d at h

  open_trade-Settles :
      (u : ℕ) (signal : Signal) (side : SignalSide) (plan : ExecutionPlan) (d : Desk E)
      → d.tables ≡ s
      → Settling (open_trade E config rows bus u signal side plan d)
  unfolding open_trade create_trade_from_plan pending_trade
  open_trade-Settles u signal side plan d same =
      let i = d.tables.next_trade_id in
      let at = ap (λ (x : Tables). x.next_trade_id) same in
      let created : Desk E = record d {
        tables = (create_trade_from_plan u signal side plan d.tables).1;
      } in
      recovered-Settles u i (trade_ref i signal side)
        (execute E config rows bus u i (trade_ref i signal side) plan created) at
        (execute-Settles u i (trade_ref i signal side) plan created at (record {
          trade = pending_trade i u signal side plan;
          id = at;
          tables = ap (λ (x : Tables). with_trade x (pending_trade i u signal side plan)) same;
          so = tt;
        }))

  -- For a user either no trade is created and none is counted as opened, or one is, and it ends as
  -- the user is counted.
  abbrev pub Round : Counted → Desk E → Type 0
  Round (counted_opened b) d = Holds s (Final (counted_opened b)) d
  Round counted_skipped d = (d.tables ≡ s) ⊎ Holds s (Final counted_skipped) d
  Round counted_error d = (d.tables ≡ s) ⊎ Holds s (Final counted_error) d

  settled-Round : (c : Counted) (d : Desk E) → Holds s (Final c) d → Round c d
  settled-Round (counted_opened b) d h = h
  settled-Round counted_skipped d h = inr h
  settled-Round counted_error d h = inr h

  abbrev pub Rounds : Result Counted × Desk E → Type 0
  Rounds o = Ends Round (λ _. Unit) o

  settled-Rounds : (o : Result Counted × Desk E) → Settling o → Rounds o
  settled-Rounds (ok c, d) h = settled-Round c d h
  settled-Rounds (err e, d) h = tt

  failed-Rounds :
      (o : Result (Unit {0}) × Desk E)
      → o.1.tables ≡ s
      → Rounds (resume (λ _. pure counted_error) o)
  failed-Rounds (ok u, d) h = inl h
  failed-Rounds (err e, d) h = tt

  skipped-Rounds :
      (o : Result (Unit {0}) × Desk E)
      → o.1.tables ≡ s
      → Rounds (resume (λ _. pure counted_skipped) o)
  skipped-Rounds (ok u, d) h = inl h
  skipped-Rounds (err e, d) h = tt

  skip_user-Rounds :
      (u : ℕ) (reason : SkipReason) (d : Desk E)
      → d.tables ≡ s
      → Rounds (skip_user E config rows bus u reason d)
  skip_user-Rounds u reason d same =
      let h = publish_skip-Untouched E bus u reason d in
      skipped-Rounds (publish_skip E bus u reason d) (h.tables ∙ same)

  prepared-Rounds :
      (u : ℕ) (signal : Signal) (o : Result Prepared × Desk E)
      → o.1.tables ≡ s
      → Rounds (after_prepare E config rows bus u signal o.0 o.1)
  prepared-Rounds u signal (err e, d) same =
      let h = publish-Untouched E bus _ d in
      failed-Rounds (publish_error E bus u exchange_operation_failed d) (h.tables ∙ same)
  prepared-Rounds u signal (ok passed, d) same = inl same
  prepared-Rounds u signal (ok (ready side plan), d) same =
      settled-Rounds _ (open_trade-Settles u signal side plan d same)

  with_credentials-Rounds :
      (u : ℕ) (signal : Signal) (c : Option Credentials) (d : Desk E)
      → d.tables ≡ s
      → Rounds (with_credentials E config rows bus u signal c d)
  unfolding trade_for
  with_credentials-Rounds u signal none d same = skip_user-Rounds u missing_credentials d same
  with_credentials-Rounds u signal (some c) d same =
      if-holds (λ (m : Step E Counted). Rounds (m d)) (c.is_valid && c.scope_verified) _ _
        (λ _.
          prepared-Rounds u signal (prepare E config rows bus u signal c d)
            (prepare-Same E config rows bus u signal c d ∙ same))
        λ _. skip_user-Rounds u credentials_not_valid d same

  -- The round of a user, which returns or raises.
  pub handle_user-Rounds :
      (k : ℕ) (signal : Signal) (user : User) (d : Desk E)
      → d.tables ≡ s
      → Rounds (handle_user E config rows bus k signal user d)
  unfolding handle_user
  handle_user-Rounds k signal user d same = go (precheck_reason config rows user k d.tables)
    where
      go : (r : Option SkipReason) → Rounds (unless_refused E config rows bus user.id signal r d)
      go (some reason) = skip_user-Rounds user.id reason d same
      go none = with_credentials-Rounds user.id signal (rows.credentials user.id) d same
