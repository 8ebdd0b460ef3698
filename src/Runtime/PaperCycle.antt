-- ===== src/Runtime/PaperCycle.antt =====
-- trading/runtime/paper_cycle.py: one paper trading cycle for one symbol. The rows that the cycle
-- writes are the state, with the list `event_ids` of the running call; a logged event keeps what the
-- audit chain reads, and its `component`, `message` and `context` are left out. What the cycle reads
-- besides its input (mode, lock, candles, the scoring client, the generated trace id) is a record,
-- and nothing else writes to the database during a cycle. A row's id is its position in the log.
pub mod ExitScan
pub mod Execution
pub mod Entry
pub mod Run
pub mod Audit
pub mod Safety
pub mod StopOut
use crypto_ai_trader.Base.{
  ℕ, String, List, [], ◌∷◌, ◌++◌, Option, none, some, Bool, true, false, Result, ok, err, length,
}
use crypto_ai_trader.Base.Dict.{Dict}
use crypto_ai_trader.Decimal.{Decimal}
use crypto_ai_trader.Strategies.Base.{Time, Side}
use crypto_ai_trader.Strategies.Exits.{ExitReason, ExitSignal, ExitEngine}
use crypto_ai_trader.Risk.State.{RiskState}
use crypto_ai_trader.Execution.Gate.{TradeMode, GateReason, LiveTradingLock}
use crypto_ai_trader.Execution.PaperExecutor.{PaperOrder, PaperFill, PaperExecutor}
use crypto_ai_trader.Portfolio.Accounting.{Position}
use crypto_ai_trader.MarketData.Schemas.{CandleData}
use crypto_ai_trader.Ai.Scorer.{AiScoreResult, Client}

pub record CycleInput : Type 0 where
  pub symbol : String
  pub now : Time
  pub day_start_equity : Decimal
  pub account_equity : Decimal
  pub market_prices : Dict Decimal
  pub total_position_pct : Decimal
  pub symbol_position_pct : Decimal
  pub open_positions : ℕ
  pub daily_order_count : ℕ
  pub symbol_daily_trade_count : ℕ
  pub consecutive_losses : ℕ
  pub data_is_fresh : Bool
  pub kill_switch_enabled : Bool
  pub current_position : Option Position

-- The other arguments of the cycle, and what it reads from the database.
pub record Setup : Type 0 where
  pub trace_id : String
  pub cycle_id : String
  pub mode : TradeMode
  pub lock : LiveTradingLock
  pub candles_15m : List CandleData
  pub candles_1h : List CandleData
  pub candles_4h : List CandleData
  pub client : Client
  pub executor : PaperExecutor
  pub min_notional_usdt : Decimal
  pub exit_engine : Option ExitEngine

pub data EventType : Type 0 where
  cycle_started_event exit_evaluated_event exit_signal_generated order_executed_event : EventType
  cycle_finished signal_generated risk_rejected_event risk_checked_event : EventType
  position_sized_event execution_attempted_event execution_gate_blocked : EventType
  shadow_execution_recorded execution_result_event : EventType

pub data Severity : Type 0 where
  info warning : Severity

pub data LifecycleStage : Type 0 where
  cycle_started signal_received risk_checked position_sized execution_attempted : LifecycleStage
  execution_result no_execution_stage exit_evaluated : LifecycleStage

-- The texts of `reason`: an exit's, the gate's with or without its prefix, or any other.
pub data EventReason : Type 0 where
  exit_reason : ExitReason → EventReason
  gate_reason gate_blocked_reason : GateReason → EventReason
  text : String → EventReason

pub record Event : Type 0 where
  pub event_type : EventType
  pub severity : Severity
  pub trace_id : String
  pub cycle_id : String
  pub symbol : String
  pub side : Option Side
  pub mode : TradeMode
  pub lifecycle_stage : LifecycleStage
  pub reason : Option EventReason

pub record ShadowExecution : Type 0 where
  pub symbol : String
  pub planned_notional_usdt : Decimal
  pub reference_price : Decimal
  pub simulated_fill_price : Decimal
  pub simulated_slippage_bps : Decimal
  pub decision_reason : String

pub record State : Type 0 where
  pub events : List Event
  pub executions : List (PaperOrder × PaperFill)
  pub shadows : List ShadowExecution
  pub event_ids : List ℕ

pub data CycleStatus : Type 0 where
  exit_done no_signal ai_rejected risk_rejected size_rejected gate_blocked : CycleStatus
  shadow_recorded executed no_execution : CycleStatus

-- The texts of `reject_reasons`; the score of a rejection stands inside its text.
pub data RejectReason : Type 0 where
  ai_rejected_score : ℕ → RejectReason
  execution_gate : GateReason → RejectReason
  reject_text : String → RejectReason

pub record CycleResult : Type 0 where
  pub symbol : String
  pub status : CycleStatus
  pub candidate_present : Bool
  pub ai_decision : Option AiScoreResult
  pub risk_state : Option RiskState
  pub order_executed : Bool
  pub reject_reasons : List RejectReason
  pub event_ids : List ℕ
  pub exit_signal : Option ExitSignal
  pub exit_executed : Bool
  pub trace_id : String
  pub cycle_id : String

-- The two variables that the exit scan sets.
pub record ExitOutcome : Type 0 where
  pub signal : Option ExitSignal
  pub executed : Bool

-- A call leaves the rows that it wrote, and returns or raises.
abbrev pub Outcome {ℓ} : Type ℓ → Type ℓ
Outcome A = State × Result A

-- Goes on with the value of a call that may raise.
abbrev pub attempt {ℓ κ} :
    {A : Type ℓ} {B : Type κ} → State → Result A → (A → State × Result B) → State × Result B
attempt s (err e) k = (s, err e)
attempt s (ok a) k = k a

abbrev pub record_execution : PaperOrder → PaperFill → State → State
record_execution order fill s = record s { executions = s.executions ++ (order, fill) ∷ [] }

module _ (u : Setup) (i : CycleInput) where
  abbrev pub event :
      EventType → Severity → Option Side → LifecycleStage → Option EventReason → Event
  event type severity side stage reason = record {
    event_type = type;
    severity = severity;
    trace_id = u.trace_id;
    cycle_id = u.cycle_id;
    symbol = i.symbol;
    side = side;
    mode = u.mode;
    lifecycle_stage = stage;
    reason = reason;
  }

  -- `record_event` when the id of the row is not kept.
  unfoldable pub log :
      EventType → Severity → Option Side → LifecycleStage → Option EventReason → State → State
  log type severity side stage reason s = record s {
    events = s.events ++ event type severity side stage reason ∷ [];
  }

  -- `record_event` with its id appended to `event_ids`.
  unfoldable pub log_id :
      EventType → Severity → Option Side → LifecycleStage → Option EventReason → State → State
  log_id type severity side stage reason s = record s {
    events = s.events ++ event type severity side stage reason ∷ [];
    event_ids = s.event_ids ++ length s.events ∷ [];
  }

  -- The result that a cycle returns with the ids collected so far.
  abbrev pub cycle_result :
      CycleStatus
      → Bool
      → Option AiScoreResult
      → Option RiskState
      → Bool
      → List RejectReason
      → ExitOutcome
      → State
      → State × Result CycleResult
  cycle_result status present ai risk order_executed rejects x s = (
    s,
    ok record {
      symbol = i.symbol;
      status = status;
      candidate_present = present;
      ai_decision = ai;
      risk_state = risk;
      order_executed = order_executed;
      reject_reasons = rejects;
      event_ids = s.event_ids;
      exit_signal = x.signal;
      exit_executed = x.executed;
      trace_id = u.trace_id;
      cycle_id = u.cycle_id;
    },
  )
