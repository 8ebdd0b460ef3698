-- ===== src/Runtime/Reconciliation/Report.antt =====
-- `record_reconciliation_event` of trading/runtime/reconciliation.py: a result as an event of the log,
-- the newest first. The text of the message is left out.
use crypto_ai_trader.Base.{ℕ, List, ◌∷◌, Option, none, some, Bool, true, false, if◌then◌else◌}
use crypto_ai_trader.Decimal.{Decimal}
use crypto_ai_trader.Runtime.Reconciliation.{
  ReconciliationStatus, matched, balance_mismatch, position_mismatch, global_pause_recommended,
  ReconciliationResult,
}

pub data ReconciliationEventType : Type 0 where
  reconciliation_ok reconciliation_mismatch : ReconciliationEventType

pub data ReconciliationSeverity : Type 0 where
  info_severity warning_severity error_severity : ReconciliationSeverity

-- `global_pause_recommended` stands in the context of a mismatch only.
pub record ReconciliationEvent : Type 0 where
  pub event_type : ReconciliationEventType
  pub severity : ReconciliationSeverity
  pub status : ReconciliationStatus
  pub balance_diff_usdt : Decimal
  pub position_diff_count : ℕ
  pub pause_recommended : Option Bool

-- The property `global_pause_recommended` of a result.
abbrev pub recommends_pause : ReconciliationStatus → Bool
recommends_pause global_pause_recommended = true
recommends_pause _ = false

abbrev pub mismatch_event : ReconciliationResult → ReconciliationEvent
mismatch_event r = record {
  event_type = reconciliation_mismatch;
  severity = if recommends_pause r.status then error_severity else warning_severity;
  status = r.status;
  balance_diff_usdt = r.balance_diff_usdt;
  position_diff_count = r.position_diff_count;
  pause_recommended = some (recommends_pause r.status);
}

abbrev pub event_of : ReconciliationStatus → ReconciliationResult → ReconciliationEvent
event_of matched r = record {
  event_type = reconciliation_ok;
  severity = info_severity;
  status = r.status;
  balance_diff_usdt = r.balance_diff_usdt;
  position_diff_count = r.position_diff_count;
  pause_recommended = none;
}
event_of balance_mismatch r = mismatch_event r
event_of position_mismatch r = mismatch_event r
event_of global_pause_recommended r = mismatch_event r

-- Where the log cannot be written, the exception is swallowed and nothing is recorded.
abbrev pub record_reconciliation_event :
    (log_works : Bool) → ReconciliationResult → List ReconciliationEvent → List ReconciliationEvent
record_reconciliation_event false r log = log
record_reconciliation_event true r log = event_of r.status r ∷ log
