-- ===== src/Core/Engine/Signals.antt =====
-- services/core_engine/engine.py: `handle_signal_created`.
use mrrik_ai_bot.Prelude.{
  ℕ, zero, suc, Bool, true, false, List, [], ◌∷◌, Option, none, some, if◌then◌else◌,
}
use mrrik_ai_bot.Prelude.Text.{Text}
use mrrik_ai_bot.Exchange.{Exchange}
use mrrik_ai_bot.Exchange.Action.{pure, ◌>>=◌}
use mrrik_ai_bot.Core.Repository.{Signal, mark_event_processed}
use mrrik_ai_bot.Core.Engine.{CoreEngineConfig, User, Rows, Bus, Step, on_tables}
use mrrik_ai_bot.Core.Engine.Users.{
  Counted, counted_opened, counted_skipped, counted_error, handle_user,
}

-- The three counts of the loop.
pub record Tally : Type 0 where
  pub opened_count : ℕ
  pub skipped_count : ℕ
  pub error_count : ℕ

abbrev pub no_users : Tally
no_users = record { opened_count = 0; skipped_count = 0; error_count = 0 }

abbrev pub count_user : Counted → Tally → Tally
count_user (counted_opened false) n = record n { opened_count = suc n.opened_count }
count_user (counted_opened true) n = record n {
  opened_count = suc n.opened_count;
  error_count = suc n.error_count;
}
count_user counted_skipped n = record n { skipped_count = suc n.skipped_count }
count_user counted_error n = record n { error_count = suc n.error_count }

-- `HandleSignalResult`
pub data IgnoredReason : Type 0 where
  missing_signal_id duplicate_event signal_not_accepted no_eligible_users : IgnoredReason

pub data HandleSignalResult : Type 0 where
  ignored : IgnoredReason → HandleSignalResult
  signal_not_found : HandleSignalResult
  processed : Tally → HandleSignalResult

-- A value of the payload as `int(value)` reads it.
pub data PayloadValue : Type 0 where
  boolean : Bool → PayloadValue
  natural : ℕ → PayloadValue
  negative : ℕ → PayloadValue
  not_an_int : PayloadValue

-- `_positive_int`
unfoldable pub positive_int : PayloadValue → Option ℕ
positive_int (natural zero) = none
positive_int (natural (suc n)) = some (suc n)
positive_int _ = none

-- `_get_signal_with_retry`, after `slept` pauses.
unfoldable pub get_signal_with_retry : Rows → ℕ → ℕ → List ℕ → Option Signal
get_signal_with_retry rows slept id [] = rows.signals slept id
get_signal_with_retry rows slept id (delay ∷ delays) = elim (rows.signals slept id) [
  | some signal ↦ some signal
  | none ↦ get_signal_with_retry rows (suc slept) id delays
]

module _ (E : Exchange) (config : CoreEngineConfig) (rows : Rows) (bus : Bus) where
  unfoldable pub handle_users : ℕ → Signal → List User → Tally → Step E Tally
  handle_users signal_id signal [] tally = pure tally
  handle_users signal_id signal (user ∷ users) tally = do
    counted ← handle_user E config rows bus signal_id signal user
    handle_users signal_id signal users (count_user counted tally)

  abbrev pub handle_eligible : ℕ → Signal → List User → Step E HandleSignalResult
  handle_eligible signal_id signal [] = pure (ignored no_eligible_users)
  handle_eligible signal_id signal (user ∷ users) = do
    tally ← handle_users signal_id signal (user ∷ users) no_users
    pure (processed tally)

  abbrev pub handle_first : ℕ → Signal → Bool → Step E HandleSignalResult
  handle_first signal_id signal false = pure (ignored duplicate_event)
  handle_first signal_id signal true =
      if signal.is_accepted
      then handle_eligible signal_id signal rows.eligible_users
      else pure (ignored signal_not_accepted)

  abbrev pub handle_found : Text → ℕ → Option Signal → Step E HandleSignalResult
  handle_found event_id signal_id none = pure signal_not_found
  handle_found event_id signal_id (some signal) = do
    first ← on_tables E (mark_event_processed event_id)
    handle_first signal_id signal first

  abbrev pub handle_id : Text → Option ℕ → Step E HandleSignalResult
  handle_id event_id none = pure (ignored missing_signal_id)
  handle_id event_id (some signal_id) =
      handle_found event_id signal_id
        (get_signal_with_retry rows 0 signal_id config.signal_lookup_retry_delays)

  -- `handle_signal_created`, for the event with the id.
  unfoldable pub handle_signal_created : Text → PayloadValue → Step E HandleSignalResult
  handle_signal_created event_id signal_id = handle_id event_id (positive_int signal_id)
