-- ===== src/Runtime/PaperCycle/ExitScan.antt =====
-- `_run_exit_scan` of trading/runtime/paper_cycle.py: the exit of a held position.
use crypto_ai_trader.Base.{Option, none, some, Bool, true, false, if◌then◌else◌, Result, ok}
use crypto_ai_trader.Base.Dict.{lookup}
use crypto_ai_trader.Decimal.{Decimal, nought, le}
use crypto_ai_trader.Strategies.Base.{Time, sell}
use crypto_ai_trader.Strategies.Exits.{ExitSignal, ExitEngine, Holding, evaluate}
use crypto_ai_trader.Execution.PaperExecutor.{
  PaperOrder, PaperFill, PaperExecutionResult, execute_market_sell,
}
use crypto_ai_trader.Portfolio.Accounting.{Position}
use crypto_ai_trader.Runtime.PaperCycle.{
  CycleInput, Setup, State, ExitOutcome, attempt, record_execution, log, log_id, info,
  exit_evaluated, exit_evaluated_event, exit_signal_generated, order_executed_event,
  execution_result, exit_reason,
}

-- `position.opened_at or input_data.now`
abbrev pub opened_or : Option Time → Time → Option Time
opened_or none now = some now
opened_or (some t) now = some t

abbrev pub no_exit : ExitOutcome
no_exit = record { signal = none; executed = false }

module _ (u : Setup) (i : CycleInput) where
  abbrev pub holding : Position → Decimal → Holding
  holding p price = record {
    symbol = i.symbol;
    position_qty = p.qty;
    position_avg_entry = p.avg_entry_price;
    market_price = price;
    current_time = i.now;
    position_opened_at = opened_or p.opened_at i.now;
  }

  -- Persists an approved sell that has both an order and a fill.
  abbrev pub store_sell : ExitSignal → Bool → Option PaperOrder → Option PaperFill → State → State
  store_sell signal true (some order) (some fill) s =
      log_id u i order_executed_event info (some sell) execution_result
        (some (exit_reason signal.reason)) (record_execution order fill s)
  store_sell signal _ _ _ s = s

  abbrev pub after_sell : ExitSignal → State → PaperExecutionResult → State × Result ExitOutcome
  after_sell signal s r = (
    store_sell signal r.approved r.order r.fill s,
    ok record { signal = some signal; executed = r.approved },
  )

  abbrev pub act_on_signal : State → Decimal → Option ExitSignal → State × Result ExitOutcome
  act_on_signal s price none =
      (log u i exit_evaluated_event info (some sell) exit_evaluated none s, ok no_exit)
  act_on_signal s price (some signal) =
      let s' =
        log_id u i exit_signal_generated info (some sell) exit_evaluated
          (some (exit_reason signal.reason)) s in
      attempt s' (execute_market_sell u.executor i.symbol signal.qty_to_exit price i.now)
        (after_sell signal s')

  abbrev pub scan_at : ExitEngine → Position → Option Decimal → State → State × Result ExitOutcome
  scan_at engine p none s = (s, ok no_exit)
  scan_at engine p (some price) s =
      attempt s (evaluate engine p.stop_reference (holding p price)) (act_on_signal s price)

  -- The caller's test for an engine and a position is included.
  abbrev pub scan_position :
      Option ExitEngine → Option Position → State → State × Result ExitOutcome
  scan_position (some engine) (some p) s =
      if le p.qty nought
      then (s, ok no_exit)
      else scan_at engine p (lookup i.symbol i.market_prices) s
  scan_position _ _ s = (s, ok no_exit)

  unfoldable pub run_exit_scan : State → State × Result ExitOutcome
  run_exit_scan s = scan_position u.exit_engine i.current_position s
