-- ===== src/Runtime/Runner/Once.antt =====
-- `run_once`: one iteration over the symbols. The rows of trades are written at times that do not
-- go back, so their order is that of the queries. What the cycles read besides (candles, mode,
-- lock, the scoring client, trace ids) is a parameter, and so is what Python reads from and writes
-- as the text of a Decimal. The text of an exception is left out.
pub mod Contained
use mathlib.Core.List.{reverse}
use crypto_ai_trader.Base.{
  ℕ, String, List, [], ◌∷◌, ◌++◌, map, Option, none, some, Bool, true, false, Result, ok, err,
  Error, length,
}
use crypto_ai_trader.Decimal.{Decimal, dec}
use crypto_ai_trader.Strategies.Base.{Time}
use crypto_ai_trader.Strategies.Exits.{ExitEngine}
use crypto_ai_trader.Execution.PaperExecutor.{PaperOrder, PaperFill, PaperExecutor}
use crypto_ai_trader.MarketData.Schemas.{CandleData}
use crypto_ai_trader.Notifications.Dedup.{Entries, should_notify}
use crypto_ai_trader.Runtime.PaperCycle.{CycleInput, Setup, State, CycleResult}
use crypto_ai_trader.Runtime.PaperCycle.Run.{run_paper_cycle}
use crypto_ai_trader.Runtime.Runner.Baseline.{BaselineSet}
use crypto_ai_trader.Runtime.Runner.Inputs.{OrderRow, Tables, build_cycle_inputs}

-- The events of the runner itself.
pub data RunnerEvent : Type 0 where
  runner_started loop_started : RunnerEvent
  -- an exception in the cycle of a symbol, and in an iteration
  cycle_error : String → RunnerEvent
  loop_cycle_error : ℕ → RunnerEvent
  loop_finished runner_stopped : ℕ → RunnerEvent

-- A result of the cycle, or the one with the status "error".
pub data SymbolResult : Type 0 where
  finished : CycleResult → SymbolResult
  failed : String → Error → SymbolResult

-- The rows of the cycles, the baselines, the runner's events with the newest first, the entries of
-- the deduplicator, and the symbols of the notifications sent.
pub record RunnerState : Type 0 where
  pub cycle : State
  pub baselines : List BaselineSet
  pub events : List RunnerEvent
  pub entries : Entries
  pub notified : List (Option String)

pub record Surroundings : Type 0 where
  pub text_of : Decimal → String
  pub decimal_of : String → Result Decimal
  pub latest : String → Option CandleData
  pub keeps_zones : Bool
  pub setup_of : RunnerState → CycleInput → Setup
  pub dedup_window : ℕ

-- The arguments of `run_once`.
pub record RunOptions : Type 0 where
  pub symbols : List String
  pub initial_cash_usdt : Decimal
  pub executor : PaperExecutor
  pub min_notional : Decimal

-- `ExitEngine()`
abbrev pub default_exit_engine : ExitEngine
default_exit_engine = record {
  hard_stop_reference = none;
  take_profit_pct = dec 5 0;
  max_hours = 24;
}

abbrev pub order_row : PaperOrder → OrderRow
order_row order = record { symbol = order.symbol; created_at = order.created_at }

abbrev pub tables_of : (keeps_zones : Bool) → (String → Option CandleData) → State → Tables
tables_of keeps_zones latest s = record {
  fills = map (λ execution. execution.1) s.executions;
  orders = reverse (map (λ execution. order_row execution.0) s.executions);
  keeps_zones = keeps_zones;
  latest = latest;
}

abbrev pub record_event : RunnerEvent → RunnerState → RunnerState
record_event event s = record s { events = event ∷ s.events }

abbrev pub notify_if : Bool → Option String → RunnerState → RunnerState
notify_if true symbol s = record s { notified = symbol ∷ s.notified }
notify_if false symbol s = s

module _ (u : Surroundings) (options : RunOptions) (now : Time) where
  -- The notification of an error, unless one was sent within the window.
  unfoldable pub notify_error : Option String → RunnerState → RunnerState
  notify_error symbol s =
      let (entries, notify) =
        should_notify u.dedup_window now "cycle_error" "runner" symbol s.entries in
      notify_if notify symbol (record s { entries = entries })

  -- What the cycle is given, with the options of the runner.
  abbrev pub cycle_setup : RunnerState → CycleInput → Setup
  cycle_setup s i = record (u.setup_of s i) {
    executor = options.executor;
    min_notional_usdt = options.min_notional;
    exit_engine = some default_exit_engine;
  }

  -- The two branches of the `try` around a cycle.
  abbrev pub after_cycle :
      String → RunnerState → State × Result CycleResult → RunnerState × SymbolResult
  after_cycle symbol s (rows, ok r) = (record s { cycle = rows }, finished r)
  after_cycle symbol s (rows, err why) = (
    notify_error (some symbol) (record s { cycle = rows; events = cycle_error symbol ∷ s.events }),
    failed symbol why,
  )

  unfoldable pub run_cycles : List CycleInput → RunnerState → RunnerState × List SymbolResult
  unfolding notify_error
  run_cycles [] s = (s, [])
  run_cycles (i ∷ inputs) s =
      let (next, r) = after_cycle i.symbol s (run_paper_cycle (cycle_setup s i) i s.cycle) in
      let (last, rs) = run_cycles inputs next in (last, r ∷ rs)

  abbrev pub after_inputs :
      RunnerState
      → List BaselineSet × Result (List CycleInput)
      → RunnerState × Result (List SymbolResult)
  after_inputs s (baselines, err why) = (record s { baselines = baselines }, err why)
  after_inputs s (baselines, ok inputs) =
      let (last, results) = run_cycles inputs (record s { baselines = baselines }) in
      (record_event (loop_finished (length results)) last, ok results)

  unfoldable pub run_once : RunnerState → RunnerState × Result (List SymbolResult)
  unfolding run_cycles
  run_once s =
      let started = record_event loop_started s in
      after_inputs started (
        build_cycle_inputs u.text_of u.decimal_of (tables_of u.keeps_zones u.latest started.cycle)
          options.symbols now options.initial_cash_usdt started.baselines)
