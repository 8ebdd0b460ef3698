-- ===== src/Lib.antt =====
-- crypto-ai-trader: a paper trading system for crypto markets, verified around the path of a trade.
--
-- A cycle (trading/runtime/paper_cycle.py) looks at one symbol: it sells the held position if an exit
-- rule triggers, else builds features from candles, asks the strategy for a candidate, has the
-- candidate scored, checks it against the risk limits, sizes it, asks the execution gate for a route
-- and fills the order on paper or records a shadow execution. The control plane of the dashboard
-- changes the trade mode and the lock that the gate reads. The runner rebuilds the account from the
-- recorded fills, builds the inputs of an iteration and runs a cycle for each symbol; the supervisor
-- runs the runner and the ingestion in two threads, restarts them and watches their heartbeats. The
-- live executor sends orders to the exchange through its filters; it stands apart from the cycle.
--
-- Files and the code that they model:
-- Base: names of the libraries, lists, dictionaries, and `Result` for code that raises.
-- Decimal: Python's decimal arithmetic with 28 digits, rounding half to even, on a signed
--   coefficient over a power of ten; `div` returns an error where Python signals one.
-- Strategies.Base, Exits, Momentum: trading/strategies/base.py, exits.py and
--   active/multi_timeframe_momentum.py. A rule of exits is a constructor of `ExitRule`.
-- Risk.Profiles, State, PreTrade, Sizing, PreFlight: the files of the same names in trading/risk;
--   a function keeps its name, the texts of messages are left out.
-- Ai.Scorer: trading/ai/scorer.py and schemas.py. The client is a function from the payload to a
--   reply before validation, or to nothing when it raises.
-- Execution.Gate, PaperExecutor: trading/execution/gate.py and paper_executor.py.
-- Execution.Exchange: the exchange as a parameter, a function from the requests sent so far to the
--   answer to the next one; httpx and the exchange stand behind it.
-- Execution.Filters, Orders, LiveExecutor: trading/execution/binance_filters.py and live_executor.py,
--   with the requests that were sent as a part of the executor's state. Filtered, Sent, Settled and
--   Fetched hold the proofs.
-- Runtime.Mode, ControlPlane: trading/runtime/mode.py, and `set_mode` and `set_live_lock` of
--   trading/dashboard_api/routes_runtime.py over the rows of RuntimeControlRepository.
-- Runtime.Reconciliation: trading/runtime/reconciliation.py; Report is
--   `record_reconciliation_event`.
-- Runtime.PaperCycle: trading/runtime/paper_cycle.py; ExitScan is `_run_exit_scan`, Run, Entry and
--   Execution are the stages of `run_paper_cycle`. A stage takes the rows written so far and returns
--   the rows that it leaves with a result or an error, so what was committed before an exception
--   stays. Audit, Safety and StopOut hold the proofs about a whole cycle.
-- Runtime.Runner: trading/runtime/runner.py; Baseline is `_get_or_create_day_baseline`, Inputs is
--   `_build_cycle_inputs`, Once is `run_once` and Loop is `run_loop`. `str` and `Decimal` on texts are
--   parameters, with the hypothesis that a printed number is read back.
-- Runtime.Supervisor: trading/runtime/supervisor.py; a turn of a thread is one iteration of
--   `_ingestion_target` or `_trading_target`, System puts the turns of both threads in any order
--   with the rounds of the main thread and its KeyboardInterrupts, and Monitor is
--   `_check_heartbeat_stale`.
-- Portfolio.Accounting: trading/portfolio/accounting.py, and the replay of fills of
--   trading/runtime/runner.py.
-- MarketData.Candles, Ingestion: `upsert_many` and `list_recent` of trading/storage/repositories.py
--   and `ingest_once` of trading/market_data/ingestion_runner.py; the client is a parameter. A query
--   does not see the new rows of its call, and a commit checks the unique constraint.
-- MarketData.Schemas, Features.Indicators, Features.Builder: trading/market_data/schemas.py and
--   trading/features.
-- Notifications.Dedup: trading/notifications/dedup.py, with the clock as an argument.
-- Dashboard: trading/dashboard_api/routes_runtime.py over the rows that a request reads. Events is the
--   event log, Health the heartbeat part of both pages, Risk is `_resolve_risk_state` and
--   `_resolve_risk_info`, Blocking and ReleaseGate are `read_release_gate_live`, Books and Restarts
--   are the local books and the restart part of `read_runtime_status`, and Status is the rest of it;
--   Controls is `read_control_plane` and `exit_local_system`.
-- Examples: the theorems at concrete inputs.
--
-- Loops are recursion on lists. Only `run_loop` has fuel: one more than `max_cycles` is enough.
-- Times are numbers of microseconds, and the texts that are put into upper or lower case are ASCII.
-- A flag of the rows says whether the database keeps the time zones of the orders.
-- The database is the state that a component writes, and a read
-- returns what was written. Exponents of decimals outside the range of the default context, NaN and
-- infinities are left out, since no input of the modelled code brings them in.
--
-- Not modelled: the loop around the ingestion, the checks of data quality, the heartbeat thread of
-- the supervisor, notification channels, the other read-only pages of the dashboard and the
-- signals of its local shutdown, the clients over HTTP, the database library and the entry points.
pub mod Base
pub mod Decimal
pub mod Strategies
pub mod Risk
pub mod Ai
pub mod Execution
pub mod Runtime
pub mod Portfolio
pub mod MarketData
pub mod Features
pub mod Notifications
pub mod Dashboard
pub mod Examples
