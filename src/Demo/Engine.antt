-- ===== src/Demo/Engine.antt =====
-- services/demo_engine/engine.py: what its two handlers share, with the events of
-- services/demo_engine/events.py. Signals, settings and users are written by other services: they
-- are read from the parameter `Rows`. The Redis stream is the parameter `Bus`, which may raise for
-- any event. The texts of messages are told apart only by what they are about.
pub mod Prices
pub mod Signals
pub mod Service
pub mod Refines
pub mod Announced
use mrrik_ai_bot.Prelude.{
  ℕ, ◌≡◌, Bool, true, false, ◌&&◌, List, [], ◌∷◌, ◌++◌, Option, none, some, Result, ok, err, ltb,
  ◌==◌, if◌then◌else◌,
}
use mrrik_ai_bot.Decimal.{Decimal}
use mrrik_ai_bot.Exchange.Action.{Action, pure, lift, resume}
use mrrik_ai_bot.Demo.TradeLogic.{Reason}
use mrrik_ai_bot.Demo.TradeLogic.Opening.{Realism}
use mrrik_ai_bot.Demo.Store.{
  DemoAccount, DemoTrade, TradeStatus, trade_open, trade_closed, Store, Signal, find_trade,
}

-- The columns of user_settings that the engine reads. `leverage_cap` is set where `leverage_mode` is
-- "cap" and the cap is not null.
pub record Settings : Type 0 where
  pub fixed_margin_usdt : Decimal
  pub risk_model : ℕ
  pub model3_exit_roi_pct : Decimal
  pub leverage_cap : Option ℕ

-- `DemoEngineConfig`; the retry delays are in milliseconds.
pub record DemoEngineConfig : Type 0 where
  pub start_balance_usdt : Decimal
  pub fixed_margin_usdt : Decimal
  pub risk_model : ℕ
  pub model2_weights : List Decimal
  pub model3_exit_roi_pct : Decimal
  pub move_sl_to_be_after_tp1 : Bool
  pub maintenance_margin_rate : Decimal
  pub realism : Realism
  pub signal_lookup_retry_delays : List ℕ

pub data Message : Type 0 where
  demo_open_message : DemoTrade → Message
  demo_close_message : DemoTrade → Message

-- The events, with the objects that their payloads are built from.
pub data Event : Type 0 where
  demo_opened : DemoTrade → Event
  demo_closed : DemoTrade → DemoAccount → Event
  notify_user : (telegram_id : ℕ) → Message → Event

-- The rows of the other tables. A signal may turn up between two looks for it, so `signals` takes
-- how often the engine has slept before the look.
pub record Rows : Type 0 where
  pub signals : ℕ → ℕ → Option Signal
  pub settings : ℕ → Option Settings
  pub telegram_id : ℕ → Option ℕ

-- `publisher.publish`, after the events that were published before.
abbrev pub Bus : Type 0
Bus = List Event → Event → Result (Unit {0})

-- The tables as the session sees them, and what has been published, the first event first.
pub record World : Type 0 where
  pub store : Store
  pub published : List Event

abbrev pub Session : Type 0 → Type 0
Session A = Action World A

-- `DemoHandleResult`
pub data IgnoredReason : Type 0 where
  missing_signal_id signal_not_found signal_not_accepted no_demo_accounts invalid_signal :
      IgnoredReason
  duplicate_open_trade demo_open_plan_rejected no_eligible_accounts no_open_trades : IgnoredReason

pub data DemoHandleResult : Type 0 where
  opened : (opened_count : ℕ) → DemoHandleResult
  processed : (closed_count : ℕ) → DemoHandleResult
  ignored : IgnoredReason → DemoHandleResult
  retry : IgnoredReason → DemoHandleResult

-- Code that only changes the tables.
abbrev pub change : {A : Type 0} → (Store → A × Store) → Session A
change f w = let (a, s) = f w.store in (ok a, record w { store = s })

abbrev pub stored : World → Result Store → Result (Unit {0}) × World
stored w (ok s) = (ok tt, record w { store = s })
stored w (err e) = (err e, w)

-- Code that changes the tables and may raise before it does.
abbrev pub try_change : (Store → Result Store) → Session (Unit {0})
try_change f w = stored w (f w.store)

abbrev pub sent : World → Event → Result (Unit {0}) → Result (Unit {0}) × World
sent w e (ok u) = (ok tt, record w { published = w.published ++ e ∷ [] })
sent w e (err x) = (err x, w)

-- `await publisher.publish(...)`
unfoldable pub publish : Bus → Event → Session (Unit {0})
publish bus e w = sent w e (bus w.published e)

-- `user = repository.get_user(...)` and the event for a user that there is.
unfoldable pub notify : Bus → Option ℕ → Message → Session (Unit {0})
unfolding publish
notify bus none message = pure tt
notify bus (some telegram_id) message = publish bus (notify_user telegram_id message)

-- The fields of the trade object with the key.
abbrev pub given : {A : Type 0} → Option A → Result A
given none = err "the object is not in the session"
given (some a) = ok a

unfoldable pub trade_object : ℕ → Session DemoTrade
trade_object i w = (given (find_trade i w.store.trades), w)

-- `format_demo_close_message`
unfoldable pub format_demo_close_message : DemoTrade → Result Message
format_demo_close_message t = elim t.status [
  | trade_open ↦ err "demo close messages require a fully closed trade"
  | trade_closed ↦ elim t.realized_roi_pct [
    | none ↦ err "closed demo trade is missing its realized result"
    | some roi ↦ elim t.realized_pnl_usdt [
      | none ↦ err "closed demo trade is missing its realized result"
      | some pnl ↦ elim t.closed_reason [
        | none ↦ err "unsupported demo close reason"
        | some reason ↦ ok (demo_close_message t)
      ]
    ]
  ]
]

-- `_effective_leverage(signal_leverage, settings)`
abbrev capped : Option ℕ → ℕ → ℕ
capped none leverage = leverage
capped (some cap) leverage = if ltb cap leverage then cap else leverage

unfoldable pub effective_leverage : ℕ → Option Settings → ℕ
effective_leverage leverage none = leverage
effective_leverage leverage (some settings) = capped settings.leverage_cap leverage

-- The settings of the user, or the defaults of the configuration.
abbrev pub margin_of : DemoEngineConfig → Option Settings → Decimal
margin_of config none = config.fixed_margin_usdt
margin_of config (some settings) = settings.fixed_margin_usdt

abbrev pub risk_model_of : DemoEngineConfig → Option Settings → ℕ
risk_model_of config none = config.risk_model
risk_model_of config (some settings) = settings.risk_model

abbrev pub roi_of : DemoEngineConfig → Option Settings → Decimal
roi_of config none = config.model3_exit_roi_pct
roi_of config (some settings) = settings.model3_exit_roi_pct
