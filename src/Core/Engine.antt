-- ===== src/Core/Engine.antt =====
-- services/core_engine/engine.py: the state of the handler, its configuration, its events, and what
-- is asked of a user before any order. Each user has an account of their own on the exchange. The
-- rows of other services, Redis, the decryption of keys and the message bus are parameters; the
-- texts of messages are told apart only by what they are about.
pub mod Preparation
pub mod Users
pub mod Signals
pub mod Untouched
pub mod Held
pub mod Settled
use mrrik_ai_bot.Prelude.{
  ℕ, suc, ◌≤◌, Bool, true, false, not, ◌&&◌, ◌||◌, String, List, [], ◌∷◌, ◌++◌, Option, none, some,
  Result, ok, err, ltb, leb, ◌==◌, map, any, if◌then◌else◌,
}
use mrrik_ai_bot.Prelude.Text.{Text, codes, text_eq, lower}
use mrrik_ai_bot.Decimal.{Decimal}
use mrrik_ai_bot.Exchange.{Exchange, World}
use mrrik_ai_bot.Exchange.Action.{Action, pure, ◌>>=◌, ◌>>◌}
use mrrik_ai_bot.Core.Entry.{EntryMode}
use mrrik_ai_bot.Core.Orders.{EntryGuard}
use mrrik_ai_bot.Core.Trades.{Trade}
use mrrik_ai_bot.Core.Repository.{
  Signal, Tables, count_open_trades, has_open_trade_for_signal, update_trade,
}

-- `CoreEngineConfig`; the retry delays are in milliseconds.
pub record CoreEngineConfig : Type 0 where
  pub fixed_margin_usdt : Decimal
  pub risk_model : ℕ
  pub model2_weights : List Decimal
  pub model3_exit_roi_pct : Decimal
  pub max_concurrent : ℕ
  pub entry_mode : EntryMode
  pub entry_guard : EntryGuard
  pub maintenance_margin_rate : Decimal
  pub leverage_cap : Option ℕ
  pub signal_lookup_retry_delays : List ℕ
  pub admin_telegram_ids : List ℕ

pub record User : Type 0 where
  pub id : ℕ
  pub is_blocked : Bool

-- The columns of user_settings that the engine reads. `caps_leverage` is `leverage_mode == "cap"`.
pub record Settings : Type 0 where
  pub fixed_margin_usdt : Decimal
  pub risk_model : ℕ
  pub model3_exit_roi_pct : Decimal
  pub max_concurrent : ℕ
  pub caps_leverage : Bool
  pub leverage_cap : Option ℕ

-- `is_decryptable` is that `decrypt_secret` gives both keys.
pub record Credentials : Type 0 where
  pub is_valid : Bool
  pub scope_verified : Bool
  pub is_decryptable : Bool

-- What other services write. A kill switch is the text that Redis has under its key,
-- `exchange_is_created` is that the factory raises nothing, and `is_plan_failure` that an exception
-- of the exchange with the message is a KeyError, TypeError or ValueError.
pub record Rows : Type 0 where
  pub signals : ℕ → ℕ → Option Signal
  pub eligible_users : List User
  pub has_subscription : ℕ → Bool
  pub settings : ℕ → Option Settings
  pub credentials : ℕ → Option Credentials
  pub global_kill_switch : Option Text
  pub user_kill_switch : ℕ → Option Text
  pub exchange_is_created : ℕ → Bool
  pub is_plan_failure : String → Bool

-- The reasons for a user to be passed over.
pub data SkipReason : Type 0 where
  kill_switch_on blocked_user inactive_subscription duplicate_open_trade : SkipReason
  max_concurrent_reached missing_credentials credentials_not_valid : SkipReason
  withdrawals_not_disabled insufficient_free_margin exchange_filters_failed : SkipReason
  entry_guard_failed : SkipReason

pub data ErrorReason : Type 0 where
  passed_over : SkipReason → ErrorReason
  exchange_operation_failed : ErrorReason
  order_failed : Option String → ErrorReason

pub data Event : Type 0 where
  trade_error_event : (user_id : ℕ) → ErrorReason → Event
  skip_notice : (user_id : ℕ) → SkipReason → Event
  trade_closed_event : (trade_id : ℕ) → Event
  aborted_notice : (user_id trade_id : ℕ) → Event
  admin_alert : (admin_id trade_id : ℕ) → Event
  trade_opened_event : (trade_id : ℕ) → Event
  opened_notice : (user_id trade_id : ℕ) → Event

abbrev pub Bus : Type 0
Bus = List Event → Event → Result (Unit {0})

-- `str(value).lower() in {"1", "true", "on", "yes"}`
abbrev switch_words : List Text
switch_words = codes "1" ∷ codes "true" ∷ codes "on" ∷ codes "yes" ∷ []

-- `_kill_switch_enabled`
unfoldable pub kill_switch_enabled : Option Text → Bool
kill_switch_enabled none = false
kill_switch_enabled (some value) = any (text_eq (lower value)) switch_words

-- `_effective_leverage(signal_leverage, settings, config)`
abbrev pub cap_of : CoreEngineConfig → Option Settings → Option ℕ
cap_of config none = config.leverage_cap
cap_of config (some settings) =
    if settings.caps_leverage then settings.leverage_cap else config.leverage_cap

abbrev capped : Option ℕ → ℕ → ℕ
capped none leverage = leverage
capped (some cap) leverage = if ltb cap leverage then cap else leverage

unfoldable pub effective_leverage : ℕ → Option Settings → CoreEngineConfig → ℕ
effective_leverage leverage settings config = capped (cap_of config settings) leverage

abbrev pub margin_of : CoreEngineConfig → Option Settings → Decimal
margin_of config none = config.fixed_margin_usdt
margin_of config (some settings) = settings.fixed_margin_usdt

abbrev pub risk_model_of : CoreEngineConfig → Option Settings → ℕ
risk_model_of config none = config.risk_model
risk_model_of config (some settings) = settings.risk_model

abbrev pub roi_of : CoreEngineConfig → Option Settings → Decimal
roi_of config none = config.model3_exit_roi_pct
roi_of config (some settings) = settings.model3_exit_roi_pct

abbrev pub maximum_of : CoreEngineConfig → Option Settings → ℕ
maximum_of config none = config.max_concurrent
maximum_of config (some settings) = settings.max_concurrent

-- `_precheck_reason`
unfoldable pub precheck_reason : CoreEngineConfig → Rows → User → ℕ → Tables → Option SkipReason
precheck_reason config rows user signal_id s =
    if kill_switch_enabled rows.global_kill_switch
    then some kill_switch_on
    else if kill_switch_enabled (rows.user_kill_switch user.id)
    then some kill_switch_on
    else if user.is_blocked
    then some blocked_user
    else if not (rows.has_subscription user.id)
    then some inactive_subscription
    else if has_open_trade_for_signal user.id signal_id s
    then some duplicate_open_trade
    else if leb (maximum_of config (rows.settings user.id)) (count_open_trades user.id s)
    then some max_concurrent_reached
    else none

module _ (E : Exchange) where
  -- The tables as the session sees them, the exchange accounts of the users, and the events
  -- published so far.
  pub record Desk : Type 0 where
    pub tables : Tables
    pub accounts : ℕ → World E
    pub published : List Event

  abbrev pub Step : Type 0 → Type 0
  Step A = Action Desk A

  abbrev pub set_account : ℕ → World E → (ℕ → World E) → ℕ → World E
  set_account u w accounts v = if v == u then w else accounts v

  -- What is done on the exchange for a user.
  abbrev pub on_account : {A : Type 0} → ℕ → Action (World E) A → Step A
  on_account u m d =
      let (r, w) = m (d.accounts u) in (r, record d { accounts = set_account u w d.accounts })

  abbrev pub on_tables : {A : Type 0} → (Tables → A × Tables) → Step A
  on_tables f d = let (a, s) = f d.tables in (ok a, record d { tables = s })

  -- An assignment to the trade object with the key.
  abbrev pub on_trade : ℕ → (Trade → Trade) → Step (Unit {0})
  on_trade i f = on_tables λ s. (tt, record s { trades = update_trade i f s.trades })

  abbrev pub sent : Desk → Event → Result (Unit {0}) → Result (Unit {0}) × Desk
  sent d e (ok u) = (ok tt, record d { published = d.published ++ e ∷ [] })
  sent d e (err x) = (err x, d)

  unfoldable pub publish : Bus → Event → Step (Unit {0})
  publish bus e d = sent d e (bus d.published e)

  -- `try: ... except Exception`: the exception as a value.
  abbrev pub caught : {A : Type 0} → Result A × Desk → Result (Result A) × Desk
  caught (r, d) = (ok r, d)

  abbrev pub attempt : {A : Type 0} → Step A → Step (Result A)
  attempt m d = caught (m d)

  -- `_publish_safely`
  unfoldable pub publish_safely : Bus → Event → Step (Unit {0})
  unfolding publish
  publish_safely bus e = do attempt (publish bus e); pure tt

  -- `_publish_admin_alerts`
  unfoldable pub publish_admin_alerts : Bus → ℕ → List ℕ → Step (Unit {0})
  publish_admin_alerts bus trade_id [] = pure tt
  publish_admin_alerts bus trade_id (admin ∷ admins) = do
    publish_safely bus (admin_alert admin trade_id)
    publish_admin_alerts bus trade_id admins

  -- `_publish_error` and `_publish_skip`
  abbrev pub publish_error : Bus → ℕ → ErrorReason → Step (Unit {0})
  publish_error bus u reason = publish bus (trade_error_event u reason)

  unfoldable pub publish_skip : Bus → ℕ → SkipReason → Step (Unit {0})
  publish_skip bus u reason = do
    publish_error bus u (passed_over reason)
    publish bus (skip_notice u reason)
