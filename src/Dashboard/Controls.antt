-- ===== src/Dashboard/Controls.antt =====
-- `read_control_plane` and `exit_local_system` of trading/dashboard_api/routes_runtime.py. Of the
-- local shutdown it is said whether it is scheduled; it sends signals to processes.
use crypto_ai_trader.Base.{
  String, Option, none, some, Bool, true, false, not, ◌||◌, if◌then◌else◌, Result, ok, err, str_eq,
}
use crypto_ai_trader.Execution.Gate.{
  TradeMode, paper_auto, live_small_auto, Route, paper, compute_execution_route,
}
use crypto_ai_trader.Runtime.Mode.{TransitionReason, validate_mode_transition}
use crypto_ai_trader.Runtime.ControlPlane.{ControlState, get_trade_mode, get_live_trading_lock}

-- The guard of the transition is a reason, or "blocked: unavailable".
pub record ControlPlaneResponse : Type 0 where
  pub trade_mode : TradeMode
  pub lock_enabled : Bool
  pub lock_reason : Option String
  pub execution_route : Route
  pub transition_guard_to_live_small_auto : Option TransitionReason

abbrev pub control_plane_of : Result ControlState → ControlPlaneResponse
control_plane_of (err why) = record {
  trade_mode = paper_auto;
  lock_enabled = false;
  lock_reason = none;
  execution_route = paper;
  transition_guard_to_live_small_auto = none;
}
control_plane_of (ok s) =
    let mode = get_trade_mode s in
    let lock = get_live_trading_lock s in
    record {
      trade_mode = mode;
      lock_enabled = lock.enabled;
      lock_reason = lock.reason;
      execution_route = compute_execution_route mode;
      transition_guard_to_live_small_auto =
          some (validate_mode_transition mode live_small_auto lock.enabled false).reason;
    }

-- A database that does not open and an exception have the same answer.
unfoldable pub read_control_plane : Result ControlState → ControlPlaneResponse
unfolding validate_mode_transition compute_execution_route
read_control_plane rows = control_plane_of rows

pub data ExitMessage : Type 0 where
  confirmation_required local_only shutdown_scheduled : ExitMessage

pub record SystemExitResponse : Type 0 where
  pub success : Bool
  pub message : ExitMessage

-- A request without a client has the empty text as its host.
unfoldable pub is_local : Option String → Bool
is_local none = false
is_local (some host) =
    str_eq host "127.0.0.1"
    || str_eq host "::1"
    || str_eq host "localhost"
    || str_eq host "testclient"

-- The answer, and whether the shutdown is scheduled.
unfoldable pub exit_local_system : (confirm : Bool) → Option String → SystemExitResponse × Bool
unfolding is_local
exit_local_system confirm host =
    if not confirm
    then (record { success = false; message = confirmation_required }, false)
    else if not (is_local host)
    then (record { success = false; message = local_only }, false)
    else (record { success = true; message = shutdown_scheduled }, true)
