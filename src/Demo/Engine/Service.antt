-- ===== src/Demo/Engine/Service.antt =====
-- services/demo_engine/main.py: what it does with one message of the signal stream and with one
-- mark price. The stream and the socket themselves are left out.
use mrrik_ai_bot.Prelude.{Bool, true, false, List, [], ◌∷◌, Result, ok, err, if◌then◌else◌}
use mrrik_ai_bot.Prelude.Text.{Text}
use mrrik_ai_bot.Decimal.{Decimal}
use mrrik_ai_bot.Demo.Engine.{
  DemoEngineConfig, Rows, Bus, World, Session, DemoHandleResult, retry, IgnoredReason,
  signal_not_found,
}
use mrrik_ai_bot.Demo.Engine.Prices.{handle_mark_price}
use mrrik_ai_bot.Demo.Engine.Signals.{PayloadValue, handle_signal_created}

-- `session_scope`: what has been published before an exception stays published.
abbrev pub end_scope : {A : Type 0} → World → Result A × World → Result A × World
end_scope before (ok a, after) = (ok a, after)
end_scope before (err e, after) = (err e, record after { store = before.store })

unfoldable pub session_scope : {A : Type 0} → Session A → Session A
session_scope action w = end_scope w (action w)

-- A message of the stream, as `event_from_json` reads it.
pub data StreamMessage : Type 0 where
  unreadable : StreamMessage
  other_event : StreamMessage
  signal_created : PayloadValue → StreamMessage

-- `result.status == "retry" and result.ignored_reason == "signal_not_found"`
abbrev is_missing : IgnoredReason → Bool
is_missing signal_not_found = true
is_missing _ = false

abbrev pub waits : DemoHandleResult → Bool
waits (retry reason) = is_missing reason
waits _ = false

-- Whether the message is acknowledged.
abbrev pub acked : {W : Type 0} → Result DemoHandleResult × W → Bool × W
acked (err e, w) = (false, w)
acked (ok result, w) = (if waits result then false else true, w)

-- What the two tasks of the service work off, in any order.
pub data Input : Type 0 where
  message : StreamMessage → Input
  mark_price : Text → Decimal → Input

module _ (config : DemoEngineConfig) (rows : Rows) (bus : Bus) where
  -- The body of the loop of `_consume_signals`.
  unfoldable pub consume_signal : StreamMessage → World → Bool × World
  consume_signal (signal_created payload) w =
      acked (session_scope (handle_signal_created config rows bus payload) w)
  consume_signal _ w = (true, w)

  -- The body of the loop of `_track_prices`, whose errors are only logged.
  unfoldable pub track_price : Text → Decimal → World → World
  track_price symbol price w = (session_scope (handle_mark_price config rows bus symbol price) w).1

  abbrev pub serve_one : Input → World → World
  serve_one (message m) w = (consume_signal m w).1
  serve_one (mark_price symbol price) w = track_price symbol price w

  unfoldable pub serve : List Input → World → World
  serve [] w = w
  serve (input ∷ inputs) w = serve inputs (serve_one input w)
