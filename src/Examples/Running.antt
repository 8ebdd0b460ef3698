-- ===== src/Examples/Running.antt =====
-- Iterations of the runner for an account that has lost half of its position's value.
use mathlib.Core.List.{Memᴰ}
use crypto_ai_trader.Base.{
  ℕ, ◌≡◌, ◌≢◌, ◌+◌, ◌*◌, ◌≤◌, refl, arith, String, List, [], ◌∷◌, map, All, length, Option, none,
  some, true, false, Result, ok, err, str_eq, if◌then◌else◌,
}
use crypto_ai_trader.Decimal.{Decimal, dec, nought, le, lt}
use crypto_ai_trader.Strategies.Base.{Time}
use crypto_ai_trader.Strategies.Exits.{
  ExitSignal, ExitEngine, Holding, hard_stop, time_exit, hour, evaluate,
}
use crypto_ai_trader.MarketData.Schemas.{CandleData}
use crypto_ai_trader.Risk.Profiles.{small_balanced}
use crypto_ai_trader.Risk.State.{DailyLossDecision, normal, classify_daily_loss}
use crypto_ai_trader.Portfolio.Accounting.{Position}
use crypto_ai_trader.Runtime.PaperCycle.{CycleInput}
use crypto_ai_trader.Runtime.Runner.Baseline.{get_or_create_day_baseline, after_calls}
use crypto_ai_trader.Runtime.Runner.Baseline.Stable.{get_or_create_day_baseline_stable}
use crypto_ai_trader.Runtime.Runner.Inputs.{Tables, build_cycle_inputs}
use crypto_ai_trader.Runtime.Runner.Inputs.Consistent.{
  IsConsistent, build_cycle_inputs-IsConsistent,
}
use crypto_ai_trader.Runtime.Runner.Inputs.Pinned.{build_cycle_inputs-pinned}
use crypto_ai_trader.Runtime.Runner.Inputs.Unstopped.{build_cycle_inputs-unstopped}
use crypto_ai_trader.Runtime.Runner.Once.{
  RunnerEvent, runner_stopped, SymbolResult, RunnerState, Surroundings, RunOptions,
  default_exit_engine, run_once, loop_started, record_event,
}
use crypto_ai_trader.Runtime.Runner.Once.Contained.{IsIteration, run_once-IsIteration}
use crypto_ai_trader.Runtime.Runner.Loop.{run_loop}
use crypto_ai_trader.Runtime.Runner.Loop.Bounded.{IsDone, run_loop_ends}
use crypto_ai_trader.Examples.Data.{returned, first_buy, executor}
use crypto_ai_trader.Examples.Tally.{tally, read_tally, read_tally-tally}
use crypto_ai_trader.Examples.Cycle.{setup, empty_state, flat}

abbrev noon : Time
noon = 1020 * hour

abbrev day_calls : List (Time × Decimal)
day_calls = (1021 * hour, dec 480 0) ∷ (1022 * hour, dec 450 0) ∷ []

get_or_create_day_baseline_stable_example :
    get_or_create_day_baseline tally read_tally (1023 * hour) (dec 400 0) (
      after_calls tally read_tally day_calls
        (get_or_create_day_baseline tally read_tally noon (dec 500 0) []).0)
    ≡ ((get_or_create_day_baseline tally read_tally noon (dec 500 0) []).0, ok (dec 500 0))
unfolding get_or_create_day_baseline crypto_ai_trader.Decimal.max_of le
get_or_create_day_baseline_stable_example =
    get_or_create_day_baseline_stable tally read_tally read_tally-tally noon (dec 500 0) []
      (dec 500 0) day_calls (1023 * hour) (dec 400 0) refl (refl, (refl, tt)) refl

abbrev fallen : CandleData
fallen = record {
  symbol = "BTCUSDT";
  timeframe = "15m";
  open_time = noon;
  close_time = noon;
  open_price = dec 55 0;
  high = dec 55 0;
  low = dec 50 0;
  close = dec 50 0;
  volume = dec 10 0;
  source = "binance";
}

abbrev latest : String → Option CandleData
latest symbol = if str_eq symbol "BTCUSDT" then some fallen else none

-- Two bitcoins were bought at 100, and the price is 50.
abbrev tables : Tables
tables = record {
  fills = first_buy ∷ [];
  orders = record { symbol = "BTCUSDT"; created_at = 1000 * hour } ∷ [];
  latest = latest;
  keeps_zones = true;
}

abbrev symbols : List String
symbols = "BTCUSDT" ∷ "ETHUSDT" ∷ []

abbrev built : Result (List CycleInput)
built = (build_cycle_inputs tally read_tally tables symbols noon (dec 500 0) []).1

abbrev inputs : List CycleInput
inputs = returned built []

build_cycle_inputs-built : built ≡ ok inputs
unfolding build_cycle_inputs crypto_ai_trader.Portfolio.Accounting.apply_fill
    crypto_ai_trader.Portfolio.Accounting.apply_buy_fill
    crypto_ai_trader.Portfolio.Accounting.open_or_grow crypto_ai_trader.Base.Dict.lookup
    crypto_ai_trader.Portfolio.Accounting.position_is_valid le crypto_ai_trader.Decimal.max_of
    crypto_ai_trader.Decimal.add crypto_ai_trader.Decimal.sub crypto_ai_trader.Decimal.mul
    crypto_ai_trader.Base.Dict.insert crypto_ai_trader.Decimal.div
build_cycle_inputs-built = refl

build_cycle_inputs-IsConsistent_example :
    (map (λ i. i.symbol) inputs ≡ symbols) × All (IsConsistent (dec 500 0) noon) inputs
build_cycle_inputs-IsConsistent_example =
    build_cycle_inputs-IsConsistent tally read_tally tables symbols noon (dec 500 0) []
      build_cycle_inputs-built

-- The account is worth 400 in truth, and its input says 500.
equity_pinned : map (λ i. i.account_equity) inputs ≡ dec 500 0 ∷ dec 500 0 ∷ []
unfolding build_cycle_inputs crypto_ai_trader.Portfolio.Accounting.apply_fill
    crypto_ai_trader.Portfolio.Accounting.apply_buy_fill
    crypto_ai_trader.Portfolio.Accounting.open_or_grow crypto_ai_trader.Base.Dict.lookup
    crypto_ai_trader.Portfolio.Accounting.position_is_valid le crypto_ai_trader.Decimal.max_of
    crypto_ai_trader.Decimal.add crypto_ai_trader.Decimal.sub crypto_ai_trader.Decimal.mul
    crypto_ai_trader.Base.Dict.insert crypto_ai_trader.Decimal.div
equity_pinned = refl

abbrev first_result : List CycleInput → Option CycleInput
first_result [] = none
first_result (i ∷ is) = some i

abbrev or_flat : Option CycleInput → CycleInput
or_flat none = flat
or_flat (some i) = i

abbrev first : CycleInput
first = or_flat (first_result inputs)

first_found : Memᴰ first inputs
unfolding build_cycle_inputs crypto_ai_trader.Portfolio.Accounting.apply_fill
    crypto_ai_trader.Portfolio.Accounting.apply_buy_fill
    crypto_ai_trader.Portfolio.Accounting.open_or_grow crypto_ai_trader.Base.Dict.lookup
    crypto_ai_trader.Portfolio.Accounting.position_is_valid le crypto_ai_trader.Decimal.max_of
    crypto_ai_trader.Decimal.add crypto_ai_trader.Decimal.sub crypto_ai_trader.Decimal.mul
    crypto_ai_trader.Base.Dict.insert crypto_ai_trader.Decimal.div
first_found = Memᴰ.head refl

build_cycle_inputs-pinned_example :
    (d : DailyLossDecision) × (classify_daily_loss first.day_start_equity first.account_equity
        small_balanced
      ≡ ok d)
    × (d.risk_state ≡ normal)
unfolding le build_cycle_inputs crypto_ai_trader.Portfolio.Accounting.apply_fill
    crypto_ai_trader.Portfolio.Accounting.apply_buy_fill
    crypto_ai_trader.Portfolio.Accounting.open_or_grow crypto_ai_trader.Base.Dict.lookup
    crypto_ai_trader.Portfolio.Accounting.position_is_valid crypto_ai_trader.Decimal.max_of
    crypto_ai_trader.Decimal.add crypto_ai_trader.Decimal.sub crypto_ai_trader.Decimal.mul
    crypto_ai_trader.Base.Dict.insert crypto_ai_trader.Decimal.div
build_cycle_inputs-pinned_example =
    build_cycle_inputs-pinned tally read_tally tables symbols noon (dec 500 0) [] small_balanced
      build_cycle_inputs-built first_found refl refl refl (refl, refl)

abbrev position : Position
position = record {
  symbol = "BTCUSDT";
  qty = dec 2 0;
  avg_entry_price = dec 100 0;
  fees_paid_usdt = dec 2 1;
  opened_at = some (1000 * hour);
  stop_reference = none;
}

position_held : first.current_position ≡ some position
unfolding build_cycle_inputs crypto_ai_trader.Portfolio.Accounting.apply_fill
    crypto_ai_trader.Portfolio.Accounting.apply_buy_fill
    crypto_ai_trader.Portfolio.Accounting.open_or_grow crypto_ai_trader.Base.Dict.lookup
    crypto_ai_trader.Portfolio.Accounting.position_is_valid le crypto_ai_trader.Decimal.max_of
    crypto_ai_trader.Decimal.add crypto_ai_trader.Decimal.sub crypto_ai_trader.Decimal.mul
    crypto_ai_trader.Base.Dict.insert crypto_ai_trader.Decimal.div
position_held = refl

-- The position is older than a day.
abbrev holding : Holding
holding = record {
  symbol = "BTCUSDT";
  position_qty = dec 2 0;
  position_avg_entry = dec 100 0;
  market_price = dec 50 0;
  current_time = 1025 * hour;
  position_opened_at = some (1000 * hour);
}

abbrev overdue : ExitSignal
overdue = record {
  symbol = "BTCUSDT";
  reason = time_exit;
  exit_price = dec 50 0;
  qty_to_exit = dec 2 0;
  created_at = 1025 * hour;
  confidence = dec 8 1;
}

overdue_signalled : evaluate default_exit_engine position.stop_reference holding ≡ ok (some overdue)
unfolding evaluate crypto_ai_trader.Strategies.Exits.profit_rules le crypto_ai_trader.Decimal.div
    crypto_ai_trader.Strategies.Exits.first_signal crypto_ai_trader.Strategies.Exits.evaluate_rule
    crypto_ai_trader.Decimal.mul crypto_ai_trader.Decimal.add
overdue_signalled = refl

build_cycle_inputs-unstopped_example : overdue.reason ≢ hard_stop
build_cycle_inputs-unstopped_example =
    build_cycle_inputs-unstopped tally read_tally tables symbols noon (dec 500 0) [] holding
      build_cycle_inputs-built first_found position_held overdue_signalled

abbrev surroundings : Surroundings
surroundings = record {
  text_of = tally;
  decimal_of = read_tally;
  latest = latest;
  keeps_zones = true;
  setup_of = λ s i. setup;
  dedup_window = 300_000_000;
}

abbrev options : RunOptions
options = record {
  symbols = symbols;
  initial_cash_usdt = dec 500 0;
  executor = executor;
  min_notional = dec 10 0;
}

abbrev idle : RunnerState
idle = record { cycle = empty_state; baselines = []; events = []; entries = []; notified = [] }

abbrev after : RunnerState
after = (run_once surroundings options noon idle).0

abbrev results : List SymbolResult
results = returned (run_once surroundings options noon idle).1 []

results_returned : (run_once surroundings options noon idle).1 ≡ ok results
unfolding run_once build_cycle_inputs le crypto_ai_trader.Decimal.max_of
    crypto_ai_trader.Decimal.add crypto_ai_trader.Decimal.div
results_returned = refl

run_once-IsIteration_example :
    IsIteration surroundings options noon options.symbols
      (record_event loop_started idle)
      (run_once surroundings options noon idle).0
      results
run_once-IsIteration_example = run_once-IsIteration surroundings options noon idle results_returned

run_loop_ends_example :
    (z : RunnerState) × (n : ℕ) × (run_loop surroundings options
        (λ k. noon + k)
        (λ k. false)
        (λ k. false)
        (3 + 1)
        300
        (some 3)
        idle
      ≡ ok (some (z, n)))
    × (n ≤ 3)
    × IsDone surroundings options (λ k. noon + k) (λ k. false) (λ k. false) 3 n
    × ((before : List RunnerEvent) × (z.events ≡ runner_stopped n ∷ before))
run_loop_ends_example =
    run_loop_ends surroundings options (λ k. noon + k) (λ k. false) (λ k. false) 3 300 idle
      (omega arith)
