-- ===== src/Signal/Types.antt =====
-- shared/signal/types.py
use mrrik_ai_bot.Prelude.{ℕ, Bool, String, List}
use mrrik_ai_bot.Decimal.{Decimal}

pub data SignalSide : Type 0 where
  long short : SignalSide

pub record ParsedEntrySignal : Type 0 where
  pub symbol : String
  pub side : SignalSide
  pub entry : Decimal
  pub stop_loss : Decimal
  pub leverage : ℕ
  pub targets : List Decimal
  pub raw_text : String

pub record TargetCorrection : Type 0 where
  pub original : Decimal
  pub corrected : Decimal
  pub reason : String

pub record SanitizedSignal : Type 0 where
  pub symbol : String
  pub side : SignalSide
  pub entry : Decimal
  pub stop_loss : Decimal
  pub leverage : ℕ
  pub targets_raw : List Decimal
  pub targets_clean : List Decimal
  pub dropped : List Decimal
  pub corrected : List TargetCorrection
  pub alert : Bool

pub record RejectedSignal : Type 0 where
  pub reason : String
  pub alert : Bool
