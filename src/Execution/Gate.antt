-- ===== src/Execution/Gate.antt =====
-- trading/execution/gate.py: the mode-aware routing decision before any order is routed.
pub mod Routing
use crypto_ai_trader.Base.{
  String, Option, none, some, Bool, true, false, not, ◌&&◌, if◌then◌else◌, str_eq, Result, ok, err,
  validation_error,
}

-- The four values of TRADE_MODES, and any other text, which the type does not rule out at run time.
pub data TradeMode : Type 0 where
  paused paper_auto live_shadow live_small_auto : TradeMode
  unknown : String → TradeMode

pub data Route : Type 0 where
  paper shadow blocked : Route

-- The codes of `reason`; a lock may bring a text of its own.
pub data GateReason : Type 0 where
  kill_switch_active : GateReason
  lock_reason : String → GateReason
  live_trading_lock_enabled mode_paused risk_rejected : GateReason
  paper_auto_approved live_shadow_approved : GateReason
  live_small_auto_requires_explicit_unlock : GateReason
  unknown_mode : String → GateReason

pub record ExecutionDecision : Type 0 where
  pub allowed : Bool
  pub route : Route
  pub reason : GateReason
  pub mode : TradeMode

pub record LiveTradingLock : Type 0 where
  pub enabled : Bool
  pub reason : Option String

-- `mode in {"live_shadow", "live_small_auto"}`
abbrev pub is_live : TradeMode → Bool
is_live live_shadow = true
is_live live_small_auto = true
is_live _ = false

-- `lock.reason or "live_trading_lock_enabled"`: an empty text counts as none.
abbrev pub lock_text : Option String → GateReason
lock_text none = live_trading_lock_enabled
lock_text (some text) = if str_eq text "" then live_trading_lock_enabled else lock_reason text

-- The constructor of ExecutionDecision validates `mode` against the four values.
abbrev pub decision : Bool → Route → GateReason → TradeMode → Result ExecutionDecision
decision allowed route reason (unknown text) = err validation_error
decision allowed route reason mode =
    ok record { allowed = allowed; route = route; reason = reason; mode = mode }

-- The routing by mode alone.
abbrev pub by_mode : TradeMode → Bool → Result ExecutionDecision
by_mode paused risk_approved = decision false blocked mode_paused paused
by_mode paper_auto risk_approved =
    if not risk_approved
    then decision false blocked risk_rejected paper_auto
    else decision true paper paper_auto_approved paper_auto
by_mode live_shadow risk_approved = decision true shadow live_shadow_approved live_shadow
by_mode live_small_auto risk_approved =
    decision false blocked live_small_auto_requires_explicit_unlock live_small_auto
by_mode (unknown text) risk_approved = decision false blocked (unknown_mode text) (unknown text)

-- `ExecutionGate.decide`. `candidate_symbol` is not read.
unfoldable pub decide : TradeMode → LiveTradingLock → Bool → Bool → Result ExecutionDecision
decide mode lock risk_approved kill_switch_enabled =
    if kill_switch_enabled
    then decision false blocked kill_switch_active mode
    else if lock.enabled && is_live mode
    then decision false blocked (lock_text lock.reason) mode
    else by_mode mode risk_approved

unfoldable pub compute_execution_route : TradeMode → Route
compute_execution_route paused = blocked
compute_execution_route paper_auto = paper
compute_execution_route live_shadow = shadow
compute_execution_route live_small_auto = blocked
compute_execution_route (unknown text) = blocked
