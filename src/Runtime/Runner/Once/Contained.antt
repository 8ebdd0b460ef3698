-- ===== src/Runtime/Runner/Once/Contained.antt =====
-- An exception in the cycle of one symbol does not keep the others from their cycles.
use crypto_ai_trader.Base.{
  ℕ, suc, ◌+◌, ◌≡◌, refl, sym, ap, ◌∙◌, arith, ok_inj, String, List, [], ◌∷◌, Option, some, Bool,
  true, false, Result, ok, err, Error, map, length, length-map,
}
use crypto_ai_trader.Strategies.Base.{Time}
use crypto_ai_trader.Runtime.PaperCycle.{CycleInput, State, CycleResult}
use crypto_ai_trader.Runtime.PaperCycle.Run.{run_paper_cycle}
use crypto_ai_trader.Runtime.Runner.Baseline.{BaselineSet}
use crypto_ai_trader.Runtime.Runner.Inputs.{build_cycle_inputs}
use crypto_ai_trader.Runtime.Runner.Inputs.Consistent.{build_cycle_inputs-IsConsistent}
use crypto_ai_trader.Runtime.Runner.Once.{
  RunnerEvent, runner_started, loop_started, cycle_error, loop_cycle_error, loop_finished,
  runner_stopped, SymbolResult, finished, failed, RunnerState, Surroundings, RunOptions, tables_of,
  record_event, notify_if, notify_error, cycle_setup, after_cycle, run_cycles, after_inputs,
  run_once,
}

-- The errors of symbols among events, and the failed results.
abbrev pub cycle_errors : List RunnerEvent → ℕ
cycle_errors [] = 0
cycle_errors (cycle_error symbol ∷ events) = suc (cycle_errors events)
cycle_errors (runner_started ∷ events) = cycle_errors events
cycle_errors (loop_started ∷ events) = cycle_errors events
cycle_errors (loop_cycle_error n ∷ events) = cycle_errors events
cycle_errors (loop_finished n ∷ events) = cycle_errors events
cycle_errors (runner_stopped n ∷ events) = cycle_errors events

abbrev pub failures : List SymbolResult → ℕ
failures [] = 0
failures (failed symbol why ∷ rs) = suc (failures rs)
failures (finished r ∷ rs) = failures rs

notify_if-events :
    (notify : Bool) (symbol : Option String) (s : RunnerState)
    → (notify_if notify symbol s).events ≡ s.events
notify_if-events true symbol s = refl
notify_if-events false symbol s = refl

notify_if-cycle :
    (notify : Bool) (symbol : Option String) (s : RunnerState)
    → (notify_if notify symbol s).cycle ≡ s.cycle
notify_if-cycle true symbol s = refl
notify_if-cycle false symbol s = refl

module _ (u : Surroundings) (options : RunOptions) (now : Time) where
  notify_error-events :
      (symbol : Option String) (s : RunnerState)
      → (notify_error u options now symbol s).events ≡ s.events
  unfolding notify_error
  notify_error-events symbol s = notify_if-events _ symbol _

  notify_error-cycle :
      (symbol : Option String) (s : RunnerState)
      → (notify_error u options now symbol s).cycle ≡ s.cycle
  unfolding notify_error
  notify_error-cycle symbol s = notify_if-cycle _ symbol _

  after_cycle-errors :
      (symbol : String) (s : RunnerState) (done : State × Result CycleResult)
      → let (next, r) = after_cycle u options now symbol s done in
        cycle_errors next.events ≡ failures (r ∷ []) + cycle_errors s.events
  after_cycle-errors symbol s (rows, ok r) = omega arith
  after_cycle-errors symbol s (rows, err why) =
      ap cycle_errors (
        notify_error-events (some symbol)
          (record s { cycle = rows; events = cycle_error symbol ∷ s.events }))
      ∙ omega arith

  failures-cons :
      (r : SymbolResult) (rs : List SymbolResult)
      → failures (r ∷ rs) ≡ failures (r ∷ []) + failures rs
  failures-cons (finished r) rs = omega arith
  failures-cons (failed symbol why) rs = omega arith

  run_cycles-errors :
      (inputs : List CycleInput) (s : RunnerState)
      → let (last, rs) = run_cycles u options now inputs s in
        (length rs ≡ length inputs)
        × (cycle_errors last.events ≡ failures rs + cycle_errors s.events)
  unfolding run_cycles
  run_cycles-errors [] s = (refl, omega arith)
  run_cycles-errors (i ∷ inputs) s =
      let done = run_paper_cycle (cycle_setup u options now s i) i s.cycle in
      let (next, r) = after_cycle u options now i.symbol s done in
      let (count, later) = run_cycles-errors inputs next in
      let rs = (run_cycles u options now inputs next).1 in
      (ap suc count, omega (arith, later, after_cycle-errors i.symbol s done, failures-cons r rs))

  -- The cycle of an input brought the result `r`: what it wrote stays; where it returned, that is
  -- the result, and where it raised, the result is failed and the error of its symbol is recorded.
  abbrev pub IsCycle : CycleInput → RunnerState → SymbolResult → RunnerState → Type 0
  IsCycle i s r next =
      let done = run_paper_cycle (cycle_setup u options now s i) i s.cycle in
      (next.cycle ≡ done.0)
      × ((x : CycleResult) → done.1 ≡ ok x → (r ≡ finished x) × (next.events ≡ s.events))
      × ((why : Error)
          → done.1 ≡ err why
          → (r ≡ failed i.symbol why) × (next.events ≡ cycle_error i.symbol ∷ s.events))

  -- The cycles of all inputs, one after the other.
  abbrev pub AreCycles : List CycleInput → RunnerState → List SymbolResult → RunnerState → Type 0
  AreCycles [] s [] last = last ≡ s
  AreCycles [] s (r ∷ rs) last = ⊥
  AreCycles (i ∷ inputs) s [] last = ⊥
  AreCycles (i ∷ inputs) s (r ∷ rs) last =
      (next : RunnerState) × IsCycle i s r next × AreCycles inputs next rs last

  after_cycle-parts :
      (symbol : String) (s : RunnerState) (done : State × Result CycleResult)
      → let (next, r) = after_cycle u options now symbol s done in
        (next.cycle ≡ done.0)
        × ((x : CycleResult) → done.1 ≡ ok x → (r ≡ finished x) × (next.events ≡ s.events))
        × ((why : Error)
            → done.1 ≡ err why
            → (r ≡ failed symbol why) × (next.events ≡ cycle_error symbol ∷ s.events))
  after_cycle-parts symbol s (rows, ok y) =
      (refl, λ x e. (ap finished (ok_inj e), refl), λ why e. absurd (ground arith))
  after_cycle-parts symbol s (rows, err y) = (
    notify_error-cycle (some symbol)
        (record s { cycle = rows; events = cycle_error symbol ∷ s.events }),
    λ x e. absurd (ground arith),
    λ why e. (
      ground arith,
      notify_error-events (some symbol)
          (record s { cycle = rows; events = cycle_error symbol ∷ s.events }),
    ),
  )

  run_cycles-AreCycles :
      (inputs : List CycleInput) (s : RunnerState)
      → let (last, rs) = run_cycles u options now inputs s in AreCycles inputs s rs last
  unfolding run_cycles
  run_cycles-AreCycles [] s = refl
  run_cycles-AreCycles (i ∷ inputs) s =
      let done = run_paper_cycle (cycle_setup u options now s i) i s.cycle in
      let (next, r) = after_cycle u options now i.symbol s done in
      (next, after_cycle-parts i.symbol s done, run_cycles-AreCycles inputs next)

  -- What an iteration over the symbols that returns shows.
  abbrev pub IsIteration : List String → RunnerState → RunnerState → List SymbolResult → Type 0
  IsIteration symbols s z results =
      (inputs : List CycleInput) × (start : RunnerState) × (last : RunnerState) × (map
          (λ i. i.symbol) inputs
        ≡ symbols)
      × (start.cycle ≡ s.cycle)
      × (start.events ≡ s.events)
      × AreCycles inputs start results last
      × (z.events ≡ loop_finished (length symbols) ∷ last.events)
      × (length results ≡ length symbols)
      × (cycle_errors z.events ≡ failures results + cycle_errors s.events)

  after_inputs-IsIteration :
      (s : RunnerState) (built : List BaselineSet × Result (List CycleInput))
      (symbols : List String)
      → ((inputs : List CycleInput) → built.1 ≡ ok inputs → map (λ i. i.symbol) inputs ≡ symbols)
      → let (z, outcome) = after_inputs u options now s built in
        (results : List SymbolResult) → outcome ≡ ok results → IsIteration symbols s z results
  after_inputs-IsIteration s (baselines, err why) symbols named = λ results h. absurd (ground arith)
  after_inputs-IsIteration s (baselines, ok inputs) symbols named = λ results h.
      let start : RunnerState = record s { baselines = baselines } in
      let (count, errors) = run_cycles-errors inputs start in
      let (last, rs) = run_cycles u options now inputs start in
      let all_of : length rs ≡ length symbols =
        count ∙ sym (length-map inputs (λ i. i.symbol)) ∙ ap length (named inputs refl) in
      rw (← ok_inj h) (
        inputs,
        start,
        last,
        named inputs refl,
        refl,
        refl,
        run_cycles-AreCycles inputs start,
        ap (λ k. loop_finished k ∷ last.events) all_of,
        all_of,
        errors,
      )

  -- An iteration that returns ran one cycle for each symbol, in their order, each on the rows that
  -- the one before left, whether that one returned or raised. The results are those of the cycles
  -- that returned, and a failed one, with a `cycle_error` event of its symbol, for each cycle that
  -- raised. The iteration ends with a `loop_finished` event that tells the number of symbols.
  pub run_once-IsIteration :
      (s : RunnerState) {results : List SymbolResult}
      → (run_once u options now s).1 ≡ ok results
      → IsIteration options.symbols
          (record_event loop_started s)
          (run_once u options now s).0
          results
  unfolding run_once
  run_once-IsIteration s {results} h =
      let begun = record_event loop_started s in
      after_inputs-IsIteration begun
        (build_cycle_inputs u.text_of u.decimal_of (tables_of u.keeps_zones u.latest begun.cycle)
          options.symbols now options.initial_cash_usdt begun.baselines)
        options.symbols
        (λ inputs e.
          (build_cycle_inputs-IsConsistent u.text_of u.decimal_of
            (tables_of u.keeps_zones u.latest begun.cycle) options.symbols now
            options.initial_cash_usdt begun.baselines e).0)
        results h
