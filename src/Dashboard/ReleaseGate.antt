-- ===== src/Dashboard/ReleaseGate.antt =====
-- `read_release_gate_live` of trading/dashboard_api/routes_runtime.py: the assessment before live
-- trading. Reading the rows of the database brings them or raises. The texts of the messages are
-- left out.
pub mod Answers
pub mod Readiness
pub mod Verdict
pub mod DryRun
use crypto_ai_trader.Base.{
  ℕ, ◌+◌, String, List, [], ◌∷◌, ◌++◌, Option, none, some, Bool, true, false, not, ◌&&◌, ◌||◌, ◌==◌,
  if◌then◌else◌, Result, ok, err,
}
use crypto_ai_trader.Strategies.Base.{Time}
use crypto_ai_trader.Execution.Gate.{
  TradeMode, paused, paper_auto, live_shadow, live_small_auto, LiveTradingLock, Route, blocked,
  compute_execution_route,
}
use crypto_ai_trader.Risk.State.{
  RiskState, normal, degraded, no_new_positions, global_pause, emergency_stop,
}
use crypto_ai_trader.Risk.PreFlight.{Credentials, is_unset}
use crypto_ai_trader.Decimal.{Decimal}
use crypto_ai_trader.Runtime.Mode.{
  TransitionReason, same_mode, blocked_direct_from_paused, blocked_shadow_first,
  blocked_requires_unlock, blocked_requires_lock, live_small_auto_unlocked, transition_allowed,
  ModeTransitionResult, mode_eq, validate_mode_transition,
}
use crypto_ai_trader.Runtime.ControlPlane.{
  ControlState, get_trade_mode, get_live_trading_lock, Surroundings,
}
use crypto_ai_trader.Dashboard.Events.{EventRow, list_recent}
use crypto_ai_trader.Dashboard.Health.{RuntimeHealth, health_of}
use crypto_ai_trader.Dashboard.Blocking.{
  ReleaseGateEnvironment, BlockedReason, database_failed, request_failed, ReleaseGateSummary,
  all_allowed, judge_shadow, judge_dry_run,
}
use crypto_ai_trader.Dashboard.Risk.{RiskRows, RiskInfo, resolve_risk_info}

pub data GateStatus : Type 0 where
  pass fail warn : GateStatus

-- The texts of `code`.
pub data GateCode : Type 0 where
  env_binance_api_key env_binance_api_secret env_exchanges_yaml env_database : GateCode
  health_supervisor_alive health_ingestion_alive health_trading_alive : GateCode
  health_heartbeat_stale cp_live_lock cp_trade_mode : GateCode
  cp_mode_transition_to_live_small_auto_dry_run risk_state runtime_unavailable : GateCode

pub record ReleaseGateCheck : Type 0 where
  pub code : GateCode
  pub status : GateStatus

-- The guard of the transition is a reason, or "blocked: unavailable".
pub record ReleaseGateControlPlane : Type 0 where
  pub trade_mode : TradeMode
  pub lock_enabled : Bool
  pub execution_route : Route
  pub transition_guard_to_live_small_auto : Option TransitionReason

-- The risk is `none` where a dash is shown for every number.
pub record ReleaseGateResponse : Type 0 where
  pub environment : ReleaseGateEnvironment
  pub control_plane : ReleaseGateControlPlane
  pub risk : Option RiskInfo
  pub health : RuntimeHealth
  pub checks : List ReleaseGateCheck
  pub summary : ReleaseGateSummary

-- What the handler reads from the database.
pub record GateRows : Type 0 where
  pub control : ControlState
  pub events : List EventRow
  pub risk : RiskRows

abbrev pub check : GateCode → GateStatus → ReleaseGateCheck
check code status = record { code = code; status = status }

abbrev pub passed : Bool → GateStatus
passed true = pass
passed false = fail

-- Alive, not alive, or unknown.
abbrev pub alive_status : Option Bool → GateStatus
alive_status none = warn
alive_status (some alive) = passed alive

-- `current_mode in ("paused", "paper_auto", "live_shadow")`
abbrev pub mode_ok : TradeMode → Bool
mode_ok mode = mode_eq mode paused || mode_eq mode paper_auto || mode_eq mode live_shadow

abbrev pub risk_status : Option RiskState → GateStatus
risk_status none = warn
risk_status (some global_pause) = fail
risk_status (some emergency_stop) = fail
risk_status (some no_new_positions) = warn
risk_status (some _) = pass

unfoldable pub checks_of :
    ReleaseGateEnvironment
    → RuntimeHealth
    → LiveTradingLock
    → TradeMode
    → ModeTransitionResult
    → Option RiskState
    → List ReleaseGateCheck
unfolding mode_eq
checks_of env health lock mode dry_run risk =
    check env_binance_api_key (passed env.binance_key_present)
    ∷ check env_binance_api_secret (passed env.binance_secret_present)
    ∷ check env_exchanges_yaml (passed env.exchanges_yaml_ok)
    ∷ check env_database (passed env.database_ok)
    ∷ check health_supervisor_alive (alive_status health.supervisor_alive)
    ∷ check health_ingestion_alive (alive_status health.ingestion_thread_alive)
    ∷ check health_trading_alive (alive_status health.trading_thread_alive)
    ∷ check health_heartbeat_stale (passed (not health.heartbeat_stale_alerting))
    ∷ check cp_live_lock (passed (not lock.enabled))
    ∷ check cp_trade_mode (if mode_ok mode then pass else warn)
    ∷ check cp_mode_transition_to_live_small_auto_dry_run (passed dry_run.allowed)
    ∷ check risk_state (risk_status risk)
    ∷ []

abbrev pub is_some {ℓ} : {A : Type ℓ} → Option A → Bool
is_some none = false
is_some (some a) = true

abbrev pub environment_of : Surroundings → ReleaseGateEnvironment
environment_of env = record {
  database_ok = true;
  binance_key_present = not (is_unset env.credentials.api_key);
  binance_secret_present = not (is_unset env.credentials.api_secret);
  exchanges_yaml_ok = is_some env.allowed_symbols;
}

-- The response from the parts that were read.
unfoldable pub assess :
    ReleaseGateEnvironment → RuntimeHealth → ControlState → RiskInfo → ReleaseGateResponse
unfolding checks_of judge_shadow judge_dry_run validate_mode_transition
assess env health control risk =
    let mode = get_trade_mode control in
    let lock = get_live_trading_lock control in
    let guard = validate_mode_transition mode live_small_auto lock.enabled false in
    let dry_run = validate_mode_transition mode live_small_auto lock.enabled true in
    record {
      environment = env;
      control_plane = record {
        trade_mode = mode;
        lock_enabled = lock.enabled;
        execution_route = compute_execution_route mode;
        transition_guard_to_live_small_auto = some guard.reason;
      };
      risk = some risk;
      health = health;
      checks = checks_of env health lock mode dry_run risk.risk_state;
      summary =
          judge_dry_run env health dry_run risk.risk_state
            (judge_shadow env health mode all_allowed);
    }

-- `_fail_closed_release_gate`
unfoldable pub fail_closed : BlockedReason → Bool → ReleaseGateResponse
fail_closed reason database_ok = record {
  environment = record {
    database_ok = database_ok;
    binance_key_present = false;
    binance_secret_present = false;
    exchanges_yaml_ok = false;
  };
  control_plane = record {
    trade_mode = paused;
    lock_enabled = false;
    execution_route = blocked;
    transition_guard_to_live_small_auto = none;
  };
  risk = none;
  health = record {
    supervisor_alive = none;
    ingestion_thread_alive = none;
    trading_thread_alive = none;
    heartbeat_stale_alerting = true;
  };
  checks = check runtime_unavailable fail ∷ [];
  summary = record {
    allow_live_shadow = false;
    allow_live_small_auto_dry_run = false;
    blocked_reasons = reason ∷ [];
  };
}

module _ (decimal_of : String → Result Decimal) where
  abbrev pub of_rows : Surroundings → Time → Result GateRows → ReleaseGateResponse
  of_rows env now (err why) = fail_closed request_failed true
  of_rows env now (ok rows) =
      assess (environment_of env) (health_of now (list_recent 500 rows.events)) rows.control
        (resolve_risk_info decimal_of now rows.risk)

  unfoldable pub read_release_gate_live :
      Surroundings → Time → Result GateRows → ReleaseGateResponse
  unfolding assess fail_closed health_of resolve_risk_info
  read_release_gate_live env now rows =
      if not env.database_opens then fail_closed database_failed false else of_rows env now rows
