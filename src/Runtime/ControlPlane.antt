-- ===== src/Runtime/ControlPlane.antt =====
-- The control plane's writes: `set_mode` and `set_live_lock` of
-- trading/dashboard_api/routes_runtime.py over `RuntimeControlRepository` of
-- trading/storage/repositories.py. The database rows are the state; what the handlers read
-- besides (credentials, exchanges.yaml, the resolved risk state) is an argument. A failure of the
-- database in the middle of a request is left out.
pub mod Outcome
pub mod Unreachable
use crypto_ai_trader.Base.{
  String, List, [], ◌∷◌, ◌++◌, Option, none, some, Bool, true, false, not, if◌then◌else◌, str_eq,
  upper, strip,
}
use crypto_ai_trader.Execution.Gate.{TradeMode, paper_auto, live_small_auto, LiveTradingLock}
use crypto_ai_trader.Risk.State.{RiskState}
use crypto_ai_trader.Risk.PreFlight.{Credentials, BlockedCode, PreFlightCheck, run_pre_flight}
use crypto_ai_trader.Runtime.Mode.{TransitionReason, same_mode, mode_eq, validate_mode_transition}

pub data ControlEvent : Type 0 where
  preflight_blocked : String → Option BlockedCode → Option String → ControlEvent
  runtime_mode_changed : TradeMode → TradeMode → Option String → ControlEvent
  runtime_live_lock_changed : Bool → Bool → Option String → ControlEvent

-- The rows "trade_mode" and "live_trading_lock", and the event log, newest last.
pub record ControlState : Type 0 where
  pub mode_row : Option TradeMode
  pub lock_row : Option LiveTradingLock
  pub events : List ControlEvent

abbrev pub get_trade_mode : ControlState → TradeMode
get_trade_mode s = elim s.mode_row [ none ↦ paper_auto | some mode ↦ mode ]

abbrev pub get_live_trading_lock : ControlState → LiveTradingLock
get_live_trading_lock s = elim s.lock_row [
  | none ↦ record { enabled = false; reason = none }
  | some lock ↦ lock
]

abbrev pub set_trade_mode : TradeMode → ControlState → ControlState
set_trade_mode mode s = record s { mode_row = some mode }

abbrev pub set_live_trading_lock : Bool → Option String → ControlState → ControlState
set_live_trading_lock enabled reason s = record s {
  lock_row = some (record { enabled = enabled; reason = reason });
}

abbrev pub record_event : ControlEvent → ControlState → ControlState
record_event e s = record s { events = s.events ++ e ∷ [] }

pub record ModeChangeRequest : Type 0 where
  pub to_mode : TradeMode
  pub allow_live_unlock : Bool
  pub reason : Option String
  pub symbol : Option String
  pub dry_run : Bool

-- The texts of `guard_reason`.
pub data GuardReason : Type 0 where
  unavailable exchanges_unavailable symbol_required risk_state_unavailable : GuardReason
  guard : TransitionReason → GuardReason
  preflight : Option BlockedCode → GuardReason

pub record ModeChangeResponse : Type 0 where
  pub success : Bool
  pub current_mode : TradeMode
  pub guard_reason : GuardReason
  pub preflight_checks : List PreFlightCheck

-- What the handler reads besides the database: whether that opens, the environment variables,
-- the symbols of exchanges.yaml if it is readable, and the risk state if it can be resolved.
pub record Surroundings : Type 0 where
  pub database_opens : Bool
  pub credentials : Credentials
  pub allowed_symbols : Option (List String)
  pub risk_state : Option RiskState

abbrev pub respond : Bool → TradeMode → GuardReason → List PreFlightCheck → ModeChangeResponse
respond success mode reason checks = record {
  success = success;
  current_mode = mode;
  guard_reason = reason;
  preflight_checks = checks;
}

-- The result of the live checks: a refusal with the state that it leaves, or the checks passed.
pub data LiveCheck : Type 0 where
  refused : ControlState → GuardReason → List PreFlightCheck → LiveCheck
  cleared : List PreFlightCheck → LiveCheck

-- `(body.symbol or "").strip().upper()`
abbrev pub requested_symbol : Option String → String
requested_symbol none = upper (strip "")
requested_symbol (some text) = upper (strip text)

-- The pre-flight safety check for live_small_auto.
unfoldable pub check_live : Surroundings → ControlState → ModeChangeRequest → LiveCheck
check_live env s body =
    let symbol = requested_symbol body.symbol in
    elim env.allowed_symbols [
      | none ↦ refused s exchanges_unavailable []
      | some allowed ↦
          if str_eq symbol "" then refused s symbol_required [] else elim env.risk_state [
            | none ↦ refused s risk_state_unavailable []
            | some state ↦
                let r =
                  run_pre_flight env.credentials symbol allowed (get_live_trading_lock s) state in
                if not r.passed
                then refused
                    (record_event (preflight_blocked symbol r.blocked_reason body.reason) s)
                    (preflight r.blocked_reason) r.checks
                else cleared r.checks
          ]
    ]

-- The end of the handler: a dry run reports, any other request persists and records the change.
unfoldable pub persist :
    ControlState
    → ModeChangeRequest
    → TransitionReason
    → List PreFlightCheck
    → ControlState × ModeChangeResponse
persist s body reason checks =
    if body.dry_run then (s, respond true (get_trade_mode s) (guard reason) checks) else (
      record_event (runtime_mode_changed (get_trade_mode s) body.to_mode body.reason)
          (set_trade_mode body.to_mode s),
      respond true body.to_mode (guard reason) checks,
    )

abbrev pub after_check :
    ControlState
    → ModeChangeRequest
    → TransitionReason
    → LiveCheck
    → ControlState × ModeChangeResponse
after_check s body reason (refused s' why checks) =
    (s', respond false (get_trade_mode s) why checks)
after_check s body reason (cleared checks) = persist s body reason checks

unfoldable pub set_mode :
    Surroundings → ControlState → ModeChangeRequest → ControlState × ModeChangeResponse
set_mode env s body =
    let current = get_trade_mode s in
    let result =
      validate_mode_transition current body.to_mode (get_live_trading_lock s).enabled
        body.allow_live_unlock in
    if not env.database_opens
    then (s, respond false paper_auto unavailable [])
    else if mode_eq current body.to_mode
    then (s, respond true current (guard same_mode) [])
    else if not result.allowed
    then (s, respond false current (guard result.reason) [])
    else if mode_eq body.to_mode live_small_auto
    then after_check s body result.reason (check_live env s body)
    else persist s body result.reason []

-- `set_live_lock`; the response says whether the change was made.
unfoldable pub set_live_lock :
    Surroundings → ControlState → Bool → Option String → ControlState × Bool
set_live_lock env s enabled reason = if not env.database_opens then (s, false) else (
  record_event (runtime_live_lock_changed (get_live_trading_lock s).enabled enabled reason)
      (set_live_trading_lock enabled reason s),
  true,
)
