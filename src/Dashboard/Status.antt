-- ===== src/Dashboard/Status.antt =====
-- `read_runtime_status` of trading/dashboard_api/routes_runtime.py: the status page. Reading the
-- rows brings them or raises. The exchange's side of the reconciliation is the mock of
-- trading/runtime/reconciliation.py, and texts built from numbers are left out.
pub mod Reconciled
use crypto_ai_trader.Base.{
  ℕ, suc, String, List, [], ◌∷◌, map, Option, none, some, Bool, false, not, if◌then◌else◌, Result,
  ok, err, ◌>>=◌, take,
}
use crypto_ai_trader.Decimal.{dec, nought}
use crypto_ai_trader.Strategies.Base.{Time}
use crypto_ai_trader.Execution.Gate.{
  TradeMode, paper_auto, live_small_auto, Route, paper, compute_execution_route,
}
use crypto_ai_trader.Execution.PaperExecutor.{PaperFill}
use crypto_ai_trader.Runtime.Mode.{TransitionReason, validate_mode_transition}
use crypto_ai_trader.Runtime.ControlPlane.{ControlState, get_trade_mode, get_live_trading_lock}
use crypto_ai_trader.Runtime.Reconciliation.{
  ReconciliationStatus, matched, ReconciliationResult, BalanceSnapshot, PositionSnapshot,
  default_thresholds, run_reconciliation,
}
use crypto_ai_trader.Runtime.Runner.Inputs.{OrderRow}
use crypto_ai_trader.Runtime.Supervisor.Monitor.{is_within}
use crypto_ai_trader.Dashboard.Events.{
  cycle_started, cycle_finished, cycle_error, supervisor_heartbeat, supervisor_component_error,
  EventRow, type_eq, list_recent, first_of,
}
use crypto_ai_trader.Dashboard.Health.{scan, RuntimeHealth, health_of}
use crypto_ai_trader.Dashboard.Risk.{initial_cash}
use crypto_ai_trader.Dashboard.Books.{Books, book_fills}
use crypto_ai_trader.Dashboard.Restarts.{
  RestartScan, scan_restarts, is_recent, no_restarts, settle_verdicts,
}

pub record CycleStatusShown : Type 0 where
  pub last_cycle_status : Option String
  pub last_cycle_time : Option Time
  pub last_error_message : Option String
  pub cycles_last_hour : ℕ
  pub orders_last_hour : ℕ

pub record HeartbeatShown : Type 0 where
  pub uptime_seconds : Option ℕ
  pub last_heartbeat_time : Option Time
  pub last_component_error : Option String
  pub last_recovered_time : Option Time

pub record ControlShown : Type 0 where
  pub trade_mode : TradeMode
  pub live_trading_lock_enabled : Bool
  pub execution_route_effective : Route
  pub mode_transition_guard : Option TransitionReason

-- The fields of the response in groups; the summary of differences is none where it is
-- "unavailable".
pub record RuntimeStatusResponse : Type 0 where
  pub cycles : CycleStatusShown
  pub health : RuntimeHealth
  pub heartbeat : HeartbeatShown
  pub restarts : RestartScan
  pub control : ControlShown
  pub shadow_executions_last_hour : ℕ
  pub last_shadow_time : Option Time
  pub reconciliation_status : ReconciliationStatus
  pub differences : Option ReconciliationResult

-- What is read: the events with the newest first, the orders with the newest first, the fills in
-- their order, and the times of the shadow executions, the newest first.
pub record StatusRows : Type 0 where
  pub control : ControlState
  pub events : List EventRow
  pub orders : List OrderRow
  pub fills : List PaperFill
  pub shadows : List Time

unfoldable pub count_started : Time → List EventRow → ℕ
unfolding type_eq is_within
count_started now [] = 0
count_started now (row ∷ rows) =
    let rest = count_started now rows in
    if type_eq row.event_type cycle_started
    then if is_recent now row.created_at then suc rest else rest
    else rest

unfoldable pub count_recent : Time → List Time → ℕ
unfolding is_within
count_recent now [] = 0
count_recent now (t ∷ times) =
    let rest = count_recent now times in if is_within 3600 now t then suc rest else rest

abbrev pub message_of : Option EventRow → Option String
message_of none = none
message_of (some row) = some row.message

abbrev pub status_of : Option EventRow → Option String
status_of none = none
status_of (some row) = row.context.status

abbrev pub time_of : Option EventRow → Option Time
time_of none = none
time_of (some row) = row.created_at

abbrev pub uptime_of : Option EventRow → Option ℕ
uptime_of none = none
uptime_of (some row) = row.context.uptime_seconds

abbrev pub first_time : List Time → Option Time
first_time [] = none
first_time (t ∷ times) = some t

unfoldable pub cycles_of : Time → List EventRow → List OrderRow → CycleStatusShown
unfolding first_of count_started count_recent
cycles_of now events orders = record {
  last_cycle_status = status_of (first_of cycle_finished events);
  last_cycle_time = time_of (first_of cycle_finished events);
  last_error_message = message_of (first_of cycle_error events);
  cycles_last_hour = count_started now events;
  orders_last_hour = count_recent now (map OrderRow.created_at (take 500 orders));
}

unfoldable pub heartbeat_of : List EventRow → HeartbeatShown
unfolding first_of scan
heartbeat_of events = record {
  uptime_seconds = uptime_of (first_of supervisor_heartbeat events);
  last_heartbeat_time = time_of (first_of supervisor_heartbeat events);
  last_component_error = message_of (first_of supervisor_component_error events);
  last_recovered_time = (scan events (record { lost = none; recovered = none })).recovered;
}

unfoldable pub control_of : ControlState → ControlShown
unfolding validate_mode_transition compute_execution_route
control_of s =
    let mode = get_trade_mode s in
    let lock = get_live_trading_lock s in
    record {
      trade_mode = mode;
      live_trading_lock_enabled = lock.enabled;
      execution_route_effective = compute_execution_route mode;
      mode_transition_guard =
          some (validate_mode_transition mode live_small_auto lock.enabled false).reason;
    }

abbrev pub control_unknown : ControlShown
control_unknown = record {
  trade_mode = paper_auto;
  live_trading_lock_enabled = false;
  execution_route_effective = paper;
  mode_transition_guard = none;
}

-- `mock_fetch_interface_balances` and `mock_fetch_interface_positions`
abbrev pub mock_balances : List BalanceSnapshot
mock_balances = record { asset = "USDT"; free = dec 5000 1; locked = nought } ∷ []

abbrev pub mock_positions : List PositionSnapshot
mock_positions = []

unfoldable pub reconcile : Books → ReconciliationResult
unfolding run_reconciliation
reconcile b =
    run_reconciliation default_thresholds
      (record { asset = "USDT"; free = b.usdt; locked = nought } ∷ [])
      (map (λ entry. entry.1) b.positions) mock_balances mock_positions

-- The fixed response for a database that does not open and for an exception.
abbrev pub unavailable : RuntimeStatusResponse
unavailable = record {
  cycles = record {
    last_cycle_status = none;
    last_cycle_time = none;
    last_error_message = none;
    cycles_last_hour = 0;
    orders_last_hour = 0;
  };
  health = record {
    supervisor_alive = none;
    ingestion_thread_alive = none;
    trading_thread_alive = none;
    heartbeat_stale_alerting = false;
  };
  heartbeat = record {
    uptime_seconds = none;
    last_heartbeat_time = none;
    last_component_error = none;
    last_recovered_time = none;
  };
  restarts = settle_verdicts no_restarts;
  control = control_unknown;
  shadow_executions_last_hour = 0;
  last_shadow_time = none;
  reconciliation_status = matched;
  differences = none;
}

abbrev pub status_from : Time → StatusRows → Books → RuntimeStatusResponse
status_from now rows books =
    let events = list_recent 500 rows.events in
    let r = reconcile books in
    record {
      cycles = cycles_of now events rows.orders;
      health = health_of now events;
      heartbeat = heartbeat_of events;
      restarts = settle_verdicts (scan_restarts now events no_restarts);
      control = control_of rows.control;
      shadow_executions_last_hour = count_recent now rows.shadows;
      last_shadow_time = first_time rows.shadows;
      reconciliation_status = r.status;
      differences = some r;
    }

abbrev pub or_unavailable : Result RuntimeStatusResponse → RuntimeStatusResponse
or_unavailable (err why) = unavailable
or_unavailable (ok response) = response

unfoldable pub read_runtime_status :
    (database_opens : Bool) → Time → Result StatusRows → RuntimeStatusResponse
unfolding book_fills reconcile cycles_of heartbeat_of control_of health_of scan_restarts
    count_recent
read_runtime_status database_opens now reads =
    if not database_opens
    then unavailable
    else or_unavailable (
        reads >>= λ rows.
        book_fills rows.fills (record { usdt = initial_cash; positions = [] }) >>= λ books.
        ok (status_from now rows books))
