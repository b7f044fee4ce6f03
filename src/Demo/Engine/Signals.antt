-- ===== src/Demo/Engine/Signals.antt =====
-- services/demo_engine/engine.py: `handle_signal_created`.
use mrrik_ai_bot.Prelude.{
  ℕ, zero, suc, Bool, true, false, List, [], ◌∷◌, Option, none, some, all_some, Result, ok, err,
  ◌==◌, length, if◌then◌else◌,
}
use mrrik_ai_bot.Decimal.{Decimal}
use mrrik_ai_bot.Exchange.Action.{pure, ◌>>=◌, ◌>>◌}
use mrrik_ai_bot.Signal.Types.{SignalSide}
use mrrik_ai_bot.Demo.TradeLogic.Opening.{DemoOpenPlan, build_demo_open_plan}
use mrrik_ai_bot.Demo.Store.{
  DemoAccount, DemoTrade, Signal, has_open_demo_trade, create_open_demo_trade,
}
use mrrik_ai_bot.Demo.Engine.{
  Settings, DemoEngineConfig, demo_opened, demo_open_message, Rows, Bus, Session, DemoHandleResult,
  opened, ignored, retry, missing_signal_id, signal_not_found, signal_not_accepted,
  no_demo_accounts, invalid_signal, duplicate_open_trade, demo_open_plan_rejected,
  no_eligible_accounts, change, publish, notify, effective_leverage, margin_of, risk_model_of,
  roi_of,
}

-- A value of the payload as `int(value)` reads it.
pub data PayloadValue : Type 0 where
  boolean : Bool → PayloadValue
  natural : ℕ → PayloadValue
  negative : ℕ → PayloadValue
  not_an_int : PayloadValue

-- `_positive_int`
unfoldable pub positive_int : PayloadValue → Option ℕ
positive_int (natural zero) = none
positive_int (natural (suc n)) = some (suc n)
positive_int _ = none

-- `_get_signal_with_retry`, after `slept` pauses.
unfoldable pub get_signal_with_retry : Rows → ℕ → ℕ → List ℕ → Option Signal
get_signal_with_retry rows slept id [] = rows.signals slept id
get_signal_with_retry rows slept id (delay ∷ delays) = elim (rows.signals slept id) [
  | some signal ↦ some signal
  | none ↦ get_signal_with_retry rows (suc slept) id delays
]

-- `tuple(Decimal(str(target)) for target in signal.targets_clean)`
abbrev pub readable_targets : List (Option Decimal) → Option (List Decimal)
readable_targets targets = all_some targets

-- What became of one account.
pub data Round : Type 0 where
  round_opened round_duplicate round_rejected : Round

-- The three counts of the loop.
pub record Tally : Type 0 where
  pub opened_count : ℕ
  pub duplicate_count : ℕ
  pub plan_rejected_count : ℕ

abbrev pub no_rounds : Tally
no_rounds = record { opened_count = 0; duplicate_count = 0; plan_rejected_count = 0 }

abbrev pub count_round : Round → Tally → Tally
count_round round_opened n = record n { opened_count = suc n.opened_count }
count_round round_duplicate n = record n { duplicate_count = suc n.duplicate_count }
count_round round_rejected n = record n { plan_rejected_count = suc n.plan_rejected_count }

-- The result by the counts of the loop.
unfoldable pub result_of : ℕ → Tally → DemoHandleResult
result_of accounts tally =
    if tally.opened_count == 0
    then if tally.duplicate_count == accounts
      then ignored duplicate_open_trade
      else if tally.plan_rejected_count == 0
      then ignored no_eligible_accounts
      else ignored demo_open_plan_rejected
    else opened tally.opened_count

module _ (config : DemoEngineConfig) (rows : Rows) (bus : Bus) where
  -- The plan for an account with these settings.
  unfoldable pub plan_for :
      Signal → SignalSide → List Decimal → Option Settings → Result DemoOpenPlan
  plan_for signal side targets settings =
      build_demo_open_plan side signal.entry signal.stop_loss
        (effective_leverage signal.leverage settings) targets (margin_of config settings)
        (risk_model_of config settings) (roi_of config settings) config.model2_weights
        config.maintenance_margin_rate config.realism

  -- What follows once the trade is in the tables.
  unfoldable pub announce_opened : ℕ → DemoTrade → Session Round
  announce_opened u t = do
    publish bus (demo_opened t)
    notify bus (rows.telegram_id u) (demo_open_message t)
    pure round_opened

  -- The trade is created with the leverage that the settings allow, and announced.
  unfoldable pub open_and_announce : Signal → SignalSide → ℕ → DemoOpenPlan → Session Round
  open_and_announce signal side u plan = do
    t ← change (
        create_open_demo_trade u signal (effective_leverage signal.leverage (rows.settings u)) side
          plan)
    announce_opened u t

  abbrev pub with_plan : Signal → SignalSide → ℕ → Result DemoOpenPlan → Session Round
  with_plan signal side u (err e) = pure round_rejected
  with_plan signal side u (ok plan) = open_and_announce signal side u plan

  abbrev pub unless_duplicate : Signal → SignalSide → List Decimal → ℕ → Bool → Session Round
  unless_duplicate signal side targets u true = pure round_duplicate
  unless_duplicate signal side targets u false =
      with_plan signal side u (plan_for signal side targets (rows.settings u))

  -- One round of the loop over the accounts, for the signal with the key.
  unfoldable pub open_one : ℕ → Signal → SignalSide → List Decimal → ℕ → Session Round
  open_one signal_id signal side targets u w =
      unless_duplicate signal side targets u (has_open_demo_trade u signal_id w.store) w

  unfoldable pub open_all :
      ℕ → Signal → SignalSide → List Decimal → List DemoAccount → Tally → Session Tally
  open_all signal_id signal side targets [] tally = pure tally
  open_all signal_id signal side targets (account ∷ accounts) tally = do
    round ← open_one signal_id signal side targets account.user_id
    open_all signal_id signal side targets accounts (count_round round tally)

  abbrev pub open_readable :
      ℕ
      → Signal
      → List DemoAccount
      → Option SignalSide
      → Option (List Decimal)
      → Session DemoHandleResult
  open_readable signal_id signal accounts (some side) (some targets) = do
    tally ← open_all signal_id signal side targets accounts no_rounds
    pure (result_of (length accounts) tally)
  open_readable signal_id signal accounts _ _ = pure (ignored invalid_signal)

  abbrev pub open_for : ℕ → Signal → List DemoAccount → Session DemoHandleResult
  open_for signal_id signal [] = pure (ignored no_demo_accounts)
  open_for signal_id signal (account ∷ accounts) =
      open_readable signal_id signal (account ∷ accounts) signal.side
        (readable_targets signal.targets_clean)

  abbrev pub handle_signal : ℕ → Option Signal → Session DemoHandleResult
  handle_signal signal_id none w = pure (retry signal_not_found) w
  handle_signal signal_id (some signal) w =
      if signal.is_accepted
      then open_for signal_id signal w.store.accounts w
      else pure (ignored signal_not_accepted) w

  abbrev pub handle_id : Option ℕ → Session DemoHandleResult
  handle_id none = pure (ignored missing_signal_id)
  handle_id (some signal_id) =
      handle_signal signal_id
        (get_signal_with_retry rows 0 signal_id config.signal_lookup_retry_delays)

  -- `handle_signal_created`
  unfoldable pub handle_signal_created : PayloadValue → Session DemoHandleResult
  handle_signal_created signal_id = handle_id (positive_int signal_id)
