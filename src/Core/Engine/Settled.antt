-- ===== src/Core/Engine/Settled.antt =====
-- services/core_engine/engine.py: what becomes of the row of a trade that is created for a user.
pub mod Preparing
pub mod Rounds
pub mod Runs
pub mod Handled
use mrrik_ai_bot.Prelude.{
  ℕ, suc, ◌<◌, ◌≡◌, ◌⊎◌, inl, inr, refl, sym, ◌∙◌, ap, subst, Bool, true, false, List, [], ◌∷◌,
  ◌++◌, Option, none, some, Result, ok, err, ◌==◌, any, All, All-append, All-map, String, arith,
  if-holds,
}
use mrrik_ai_bot.Prelude.Text.{Text, text_eq}
use mrrik_ai_bot.Exchange.{Exchange, World}
use mrrik_ai_bot.Exchange.Action.{
  Action, Keeps, >>=-Keeps, pure, lift, ◌>>◌, ◌>>=◌, resume, Ends, resume-Ends,
}
use mrrik_ai_bot.Core.Ids.{Purpose, client_order_id}
use mrrik_ai_bot.Core.Risk.{ExecutionPlan, ExecutionLegPlan}
use mrrik_ai_bot.Core.Orders.{
  TradeRef, OpenTradeResult, OpenStatus, opened, skipped, error, emergency_closed,
  emergency_close_failed,
}
use mrrik_ai_bot.Core.Entry.{place_initial_orders}
use mrrik_ai_bot.Core.Trades.{
  Trade, TradeStatus, trade_pending_entry, trade_open, trade_closed, trade_skipped, trade_error,
  aborted_no_protection, close_trade,
}
use mrrik_ai_bot.Core.Repository.{
  Signal, Tables, update_trade, set_trade_entry_order, mark_trade_opened, mark_trade_status,
  set_leg_tp_order, status_of,
}
use mrrik_ai_bot.Core.Engine.{
  CoreEngineConfig, Rows, Bus, Event, ErrorReason, Desk, Step, on_account, on_tables, on_trade,
  publish, sent, attempt, caught, publish_safely, publish_admin_alerts, publish_error, publish_skip,
  exchange_operation_failed, order_failed, trade_error_event, trade_opened_event, opened_notice,
  trade_closed_event, aborted_notice, admin_alert, entry_guard_failed,
}
use mrrik_ai_bot.Core.Engine.Users.{
  Counted, counted_opened, counted_skipped, counted_error, aborted, record_tp_order, orders_of,
  record_tp_orders, finish_opened, finish_skipped, finish_emergency_closed, finish_close_failed,
  finish_error, finish, after_orders, execute, late, announce, close_quietly,
}
use mrrik_ai_bot.Core.Engine.Untouched.{
  Untouched, Untouched-trans, publish-Untouched, publish_skip-Untouched,
}
use mrrik_ai_bot.Core.Engine.Held.{
  IsFresh, Holds, Anything, Final, on_trade-Holds, same-Holds, publish-Ends, publish_skip-Ends,
  any-Holds, Goes, publish_safely-Goes, publish_admin_alerts-Goes,
}

module _ (E : Exchange) (config : CoreEngineConfig) (rows : Rows) (bus : Bus) (s : Tables)
    (fresh : IsFresh s) where
  -- What counts the user and settles the row, or raises.
  abbrev pub Settles : Result Counted × Desk E → Type 0
  Settles o = Ends (λ c. Holds s (Final c)) (Holds s Anything) o

  -- The rest of a branch whose counting is clear already.
  abbrev pub then_counted :
      (c : Counted) (o : Result (Unit {0}) × Desk E)
      → Goes s fresh (Final c) o
      → Settles (resume (λ _. pure c) o)
  then_counted c (ok u, d) h = h
  then_counted c (err e, d) h = any-Holds s fresh (Final c) d h

  next :
      (c : Counted) {A : Type 0} (k : A → Step E Counted) (o : Result A × Desk E)
      → Goes s fresh (Final c) o
      → ((a : A) (d : Desk E) → Holds s (Final c) d → Settles (k a d))
      → Settles (resume k o)
  next c k (ok a, d) h rest = rest a d h
  next c k (err e, d) h rest = any-Holds s fresh (Final c) d h

  alerts-Settles :
      (i : ℕ) (u : Unit {0}) (d : Desk E)
      → Holds s (Final counted_error) d
      → Settles ((publish_admin_alerts E bus i config.admin_telegram_ids >> pure counted_error) d)
  alerts-Settles i u d h =
      then_counted counted_error _ (
        publish_admin_alerts-Goes s fresh (Final counted_error) bus i config.admin_telegram_ids d h)

  pub finish_skipped-Settles :
      (u i : ℕ) (d : Desk E)
      → i ≡ s.next_trade_id
      → Holds s Anything d
      → Settles (finish_skipped E config rows bus u i d)
  unfolding finish_skipped mark_trade_status
  finish_skipped-Settles u i d at h = then_counted counted_skipped _ (
      publish_skip-Ends s fresh (Final counted_skipped) bus u _ (
        on_trade-Holds s fresh Anything (Final counted_skipped) i (mark_trade_status trade_skipped)
          d at (λ _. refl) (λ t _. refl) h))

  pub finish_emergency_closed-Settles :
      (u i : ℕ) (d : Desk E)
      → i ≡ s.next_trade_id
      → Holds s Anything d
      → Settles (finish_emergency_closed E config rows bus u i d)
  unfolding finish_emergency_closed close_trade
  finish_emergency_closed-Settles u i d at h =
      let closed =
        on_trade-Holds s fresh Anything (Final counted_error) i aborted d at (λ _. refl)
          (λ t _. inl (refl, refl)) h in
      next counted_error
        (λ _.
          publish_safely E bus (aborted_notice u i)
          >> (publish_admin_alerts E bus i config.admin_telegram_ids >> pure counted_error))
        (publish_safely E bus (trade_closed_event i) _)
        (publish_safely-Goes s fresh (Final counted_error) bus _ _ closed)
        λ _ x g.
          next counted_error
            (λ _. publish_admin_alerts E bus i config.admin_telegram_ids >> pure counted_error)
            (publish_safely E bus (aborted_notice u i) x)
            (publish_safely-Goes s fresh (Final counted_error) bus _ x g) (alerts-Settles i)

  pub finish_close_failed-Settles :
      (u i : ℕ) (reason : Option String) (d : Desk E)
      → i ≡ s.next_trade_id
      → Holds s Anything d
      → Settles (finish_close_failed E config rows bus u i reason d)
  unfolding finish_close_failed mark_trade_opened
  finish_close_failed-Settles u i reason d at h =
      let opened_bare =
        on_trade-Holds s fresh Anything (Final counted_error) i (mark_trade_opened none) d at
          (λ _. refl) (λ t _. inr (inl (refl, refl))) h in
      next counted_error
        (λ _. publish_admin_alerts E bus i config.admin_telegram_ids >> pure counted_error)
        (publish_safely E bus (trade_error_event u (order_failed reason)) _)
        (publish_safely-Goes s fresh (Final counted_error) bus _ _ opened_bare) (alerts-Settles i)

  pub finish_error-Settles :
      (u i : ℕ) (trade : TradeRef) (reason : Option String) (d : Desk E)
      → i ≡ s.next_trade_id
      → Holds s Anything d
      → Settles (finish_error E config rows bus u i trade reason d)
  unfolding finish_error mark_trade_status
  finish_error-Settles u i trade reason d at h = then_counted counted_error _ (
      publish-Ends s fresh (Final counted_error) bus _ _ (
        on_trade-Holds s fresh Anything (Final counted_error) i (mark_trade_status trade_error)
          (close_quietly E config rows bus u trade d).1 at (λ _. refl) (λ t _. inr (inr refl))
          (same-Holds s fresh Anything d _ refl h)))

  record_tp_orders-Goes :
      (P : Trade → Type 0) (i : ℕ) (placed : List Text) (legs : List ExecutionLegPlan) (d : Desk E)
      → i ≡ s.next_trade_id
      → ((k : ℕ) (id : Text) (t : Trade) → P t → P (set_leg_tp_order k id t))
      → Holds s P d
      → Goes s fresh P (record_tp_orders E config rows bus i placed legs d)
  unfolding record_tp_orders set_leg_tp_order
  record_tp_orders-Goes P i placed [] d at step h = h
  record_tp_orders-Goes P i placed (leg ∷ legs) d at step h =
      resume-Ends (λ _. Holds s P) (λ _. Holds s P) (Holds s P)
        (λ _. record_tp_orders E config rows bus i placed legs)
        (record_tp_order E config rows bus i placed leg.leg_index id d) (recorded id)
        λ _ x g. record_tp_orders-Goes P i placed legs x at step g
    where
      id : Result Text
      id = client_order_id i Purpose.tp (some leg.leg_index)

      recorded :
          (r : Result Text)
          → Goes s fresh P (record_tp_order E config rows bus i placed leg.leg_index r d)
      recorded (err e) = h
      recorded (ok tp_id) =
          if-holds (λ (m : Step E (Unit {0})). Goes s fresh P (m d)) (any (text_eq tp_id) placed) _
            _
            (λ _.
              on_trade-Holds s fresh P P i (set_leg_tp_order leg.leg_index tp_id) d at (λ _. refl)
                (step leg.leg_index tp_id) h)
            (λ _. h)

  announce-Untouched : (u i : ℕ) → Keeps Untouched (announce E config rows bus u i)
  announce-Untouched u i =
      >>=-Keeps Untouched Untouched-trans (publish E bus (trade_opened_event i))
        (λ _. publish E bus (opened_notice u i)) (publish-Untouched E bus _)
        λ _. publish-Untouched E bus _

  late-Holds :
      (o : Result (Unit {0}) × Desk E) (d : Desk E)
      → Untouched d o.1
      → Holds s (Final (counted_opened true)) d
      → Holds s (Final (late E config rows bus o.0)) o.1
  late-Holds (ok u, x) d same h = same-Holds s fresh (Final (counted_opened true)) d x same.tables h
  late-Holds (err e, x) d same h =
      same-Holds s fresh (Final (counted_opened true)) d x same.tables h

  pub finish_opened-Settles :
      (u i : ℕ) (plan : ExecutionPlan) (result : OpenTradeResult) (d : Desk E)
      → i ≡ s.next_trade_id
      → Holds s Anything d
      → Settles (finish_opened E config rows bus u i plan result d)
  unfolding finish_opened mark_trade_opened set_leg_tp_order
  finish_opened-Settles u i plan result d at h =
      next (counted_opened true)
        (λ _. attempt E (announce E config rows bus u i) >>= λ r. pure (late E config rows bus r))
        (record_tp_orders E config rows bus i result.tp_order_ids plan.legs _)
        (record_tp_orders-Goes (Final (counted_opened true)) i result.tp_order_ids plan.legs _ at
          (λ k id t so. so)
          (on_trade-Holds s fresh Anything (Final (counted_opened true)) i
            (mark_trade_opened result.sl_order_id) d at (λ _. refl) (λ t _. refl) h))
        λ _ x g. late-Holds (announce E config rows bus u i x) x (announce-Untouched u i x) g
