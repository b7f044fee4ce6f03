-- ===== src/Lib.antt =====
-- The trading core of the bot: from a signal of the channel to the orders on the exchange, and
-- the demo trades that follow the same signals without an exchange.
--
-- The parts, and the files that model them (paths from the repository's root):
--   * shared/signal/types.py, pnl.py: Signal/Types, Signal/Pnl. The records of a signal, and the
--     formulas of profit and liquidation.
--   * shared/signal/sanitizer.py: Signal/Sanitizer, with the search for the longest monotonic run
--     of targets in Signal/Sanitizer/Paths. A path of the search carries each index with its value.
--   * shared/signal/sizing.py: Signal/Sizing.
--   * shared/exchange: Exchange. The operations of `ExchangeClient` are the constructors of `Call`;
--     what the exchange answers to a call is the field `perform` of the parameter `Exchange`, which
--     also has the clock and the price that the mark price stream brought last. A `World` is the
--     exchange's state with every call made so far. Exchange/Action has the actions that may raise,
--     and Exchange/Trace compares the calls of two worlds.
--   * services/core_engine/ids.py: Core/Ids. Strings that are taken apart are lists of code points.
--   * services/core_engine/risk.py: Core/Risk, with `_merge_tiny_legs` in Core/Risk/Merging and
--     `build_execution_plan` in Core/Risk/Plan.
--   * services/core_engine/orders.py: Core/Orders has `place_protective_orders` and below,
--     Core/Entry has `place_initial_orders` and the wait for the entry fill.
--   * services/core_engine/repository.py and shared/models/core.py: Core/Trades, the state of one
--     trade with its legs and the changes that the lifecycle makes to it.
--   * services/core_engine/lifecycle.py: Core/Lifecycle, the fills of a leg and of the stop loss, the
--     move of the stop to break-even, liquidation, and the realized profit.
--   * services/core_engine/repository.py, for opening trades: Core/Repository.
--   * services/core_engine/engine.py: Core/Engine, with what is done for one user in
--     Core/Engine/Preparation (up to the plan) and Core/Engine/Users, and `handle_signal_created` in
--     Core/Engine/Signals. Each user has an account,
--     a `World` of the exchange; a `Desk` is the tables, the accounts and the published events. The
--     rows of other services, Redis and the decryption of keys are the parameter `Rows`.
--   * services/core_engine/reconciliation.py: Core/Reconciliation. The trades of the database are a
--     list, the exchange accounts of their users a function, and one trade under repair with its
--     account a `Bench`.
--   * services/core_engine/safety.py: Core/Safety.
--   * services/demo_engine/trade_logic.py: Demo/TradeLogic, with `build_demo_open_plan` in
--     Demo/TradeLogic/Opening.
--   * services/demo_engine/repository.py: Demo/Store, the demo tables of shared/models/core.py. An
--     object of the session is its key; its fields are read from the tables. Demo/Store/Moves is the
--     abstract view of the tables: the moves that may be made at all, and what they reach.
--   * services/demo_engine/engine.py, events.py: Demo/Engine, with `handle_mark_price` in
--     Demo/Engine/Prices and `handle_signal_created` in Demo/Engine/Signals. The rows of other
--     services and the message bus are the parameters `Rows` and `Bus`; a `World` is the tables with
--     the events published so far.
--   * services/demo_engine/main.py: Demo/Engine/Service, what is done with one message and with one
--     price, in a `session_scope` that takes the tables back after an exception.
--   * services/demo_engine/stats.py: Demo/Stats.
--   * shared/rate_limit.py: Shared/RateLimit.
--   * shared/retry.py: Shared/Retry. The operation, the pause and the jitter are parameters.
--
-- How they interact: the sanitizer's targets go into a plan (Core/Risk), whose legs go into the
-- orders (Core/Orders) under the ids of Core/Ids; Core/Engine does this for each user of a signal.
-- Fills then change the trade (Core/Lifecycle), which looks for its new stop as Core/Orders does.
-- Core/Reconciliation compares the trades with the exchange. The demo engine sizes the same signal by
-- Signal/Sizing's fractions and evaluates each price tick.
--
-- Numbers: Decimal is Python's decimal.Decimal under its default context, 28 significant digits
-- with rounding half to even in every operation. Infinities, NaNs and the limits of the exponent
-- are left out; the infinite deviation of an entry that is not positive is a test of its own. Ids,
-- leverages, leg indices, counts and timeouts are natural numbers: the guards against negative
-- ones are those against zero. Exceptions are the constructor `err` of Prelude/Results with the
-- message; note texts are data. Log lines are left out. A division is total in Decimal; where the
-- code does not exclude a divisor of zero before, the model raises as Python does.
--
-- Loops over lists are structural, retries run over the list of their delays. The wait for the
-- entry fill runs on fuel, ten rounds for each second of the timeout, since each round pauses for
-- 100 milliseconds (`IsClock` states what is assumed of the clock).
--
-- Not modelled: the message parser, the lookup of the trade that an event belongs to and the exits
-- of model 3 in lifecycle.py, the making of exchange clients, the signal ingestor, and the services
-- for administration and Telegram. Network, database sessions and locks, the message bus and
-- logging are input and output; the database keeps numbers as they are given, without the rounding
-- of its numeric columns, and the texts of messages are told apart only by what they are about.
pub mod Prelude
pub mod Decimal
pub mod Signal
pub mod Exchange
pub mod Core
pub mod Shared
pub mod Demo
mod Tests
