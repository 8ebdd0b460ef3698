-- ===== src/Runtime/PaperCycle/StopOut.antt =====
-- The protective exit: a position at its stop is sold whatever the mode and the kill switch say.
use mathlib.Core.Path.{subst}
use crypto_ai_trader.Base.{
  ◌≡◌, refl, ◌∙◌, ap, inl, inr, List, [], ◌∷◌, ◌++◌, Option, none, some, true, false, Result, ok,
  err, arith,
}
use crypto_ai_trader.Strategies.Base.{sell}
use crypto_ai_trader.Execution.PaperExecutor.{PaperOrder, PaperFill}
use crypto_ai_trader.Base.Dict.{lookup}
use crypto_ai_trader.Decimal.{Decimal, nought, le, lt, mul}
use crypto_ai_trader.Strategies.Exits.{ExitSignal, ExitEngine, hard_stop, or_default, Holding}
use crypto_ai_trader.Strategies.Exits.Priority.{Explains, evaluate-Explains}
use crypto_ai_trader.Execution.PaperExecutor.Outcome.{execute_market_sell-filled}
use crypto_ai_trader.Portfolio.Accounting.{Position}
use crypto_ai_trader.Runtime.PaperCycle.{
  CycleInput, Setup, State, ExitOutcome, CycleResult, exit_done, attempt,
}
use crypto_ai_trader.Runtime.PaperCycle.ExitScan.{holding, act_on_signal, scan_at, run_exit_scan}
use crypto_ai_trader.Runtime.PaperCycle.Run.{after_exit_scan, run_paper_cycle}

-- At the stop the engine signals the hard stop for the whole position.
signal_at_stop :
    (position_stop : Option Decimal) (engine : ExitEngine) (h : Holding) (stop : Decimal)
    (o : Option ExitSignal)
    → or_default position_stop engine.hard_stop_reference ≡ some stop
    → le h.market_price stop ≡ true
    → Explains engine position_stop h o
    → (signal : ExitSignal) × (o ≡ some signal)
      × (signal.reason ≡ hard_stop)
      × (signal.qty_to_exit ≡ h.position_qty)
signal_at_stop position_stop engine h stop none set hit (no_stop, no_target, young) =
    absurd (no_stop stop (set, hit))
signal_at_stop position_stop engine h stop (some signal) set hit (qty, symbol, inl (why, stopped)) =
    (signal, refl, why, qty)
signal_at_stop position_stop engine h stop (some signal) set hit
      (qty, symbol, inr (inl (why, on, no_stop))) =
    absurd (no_stop stop (set, hit))
signal_at_stop position_stop engine h stop (some signal) set hit
      (qty, symbol, inr (inr (why, at, old, no_stop, no_target))) =
    absurd (no_stop stop (set, hit))

module _ (u : Setup) (i : CycleInput) where
  -- To the recorded trades one market sell of the symbol was added, and the quantity is filled.
  abbrev pub Sells : List (PaperOrder × PaperFill) → Decimal → State → Type 0
  Sells before qty after =
      (order : PaperOrder) × (fill : PaperFill) × (after.executions ≡ before ++ (order, fill) ∷ [])
      × (order.side ≡ sell)
      × (order.symbol ≡ i.symbol)
      × (fill.side ≡ sell)
      × (fill.symbol ≡ i.symbol)
      × (fill.qty ≡ qty)

  -- The scan returns with the position sold.
  abbrev Sold : List (PaperOrder × PaperFill) → Decimal → State × Result ExitOutcome → Type 0
  Sold before qty (s, r) =
      (x : ExitOutcome) × (r ≡ ok x)
      × (x.executed ≡ true)
      × ((signal : ExitSignal) × (x.signal ≡ some signal) × (signal.reason ≡ hard_stop))
      × Sells before qty s

  act_on_signal-Sold :
      (s : State) (price : Decimal) (o : Option ExitSignal) (signal : ExitSignal)
      → o ≡ some signal
      → signal.reason ≡ hard_stop
      → lt nought signal.qty_to_exit ≡ true
      → lt nought price ≡ true
      → Sold s.executions signal.qty_to_exit (act_on_signal u i s price o)
  unfolding crypto_ai_trader.Runtime.PaperCycle.log_id
  act_on_signal-Sold s price o signal e why some_qty priced =
      let (fill_price, fee, returned) =
        execute_market_sell-filled u.executor i.symbol signal.qty_to_exit price i.now some_qty
          priced in
      let order : PaperOrder = record {
        symbol = i.symbol;
        side = sell;
        requested_notional_usdt = mul signal.qty_to_exit fill_price;
        created_at = i.now;
      } in
      let fill : PaperFill = record {
        symbol = i.symbol;
        side = sell;
        price = fill_price;
        qty = signal.qty_to_exit;
        fee_usdt = fee;
        slippage_bps = u.executor.slippage_bps;
        filled_at = i.now;
      } in
      rw (e, returned)
        (_, refl, refl, (signal, refl, why), (order, fill, refl, refl, refl, refl, refl, refl))

  scan_at-Sold :
      (engine : ExitEngine) (p : Position) (price stop : Decimal) (s : State)
      → or_default p.stop_reference engine.hard_stop_reference ≡ some stop
      → le price stop ≡ true
      → lt nought p.qty ≡ true
      → lt nought price ≡ true
      → Sold s.executions p.qty (scan_at u i engine p (some price) s)
  scan_at-Sold engine p price stop s set hit some_qty priced =
      let (o, returned, explained) =
        evaluate-Explains engine p.stop_reference (holding u i p price) in
      let (signal, e, why, qty) =
        signal_at_stop p.stop_reference engine (holding u i p price) stop o set hit explained in
      let sold =
        act_on_signal-Sold s price o signal e why (ap (λ (q : Decimal). lt nought q) qty ∙ some_qty)
          priced in
      rw returned
        (subst (λ (q : Decimal). Sold s.executions q (act_on_signal u i s price o)) qty sold)

  resume-Sold :
      (before : List (PaperOrder × PaperFill)) (qty : Decimal)
      (scanned : State × Result ExitOutcome)
      → Sold before qty scanned
      → let (after, outcome) = attempt scanned.0 scanned.1 (after_exit_scan u i scanned.0) in
        (r : CycleResult) × (outcome ≡ ok r)
        × (r.status ≡ exit_done)
        × (r.exit_executed ≡ true)
        × ((signal : ExitSignal) × (r.exit_signal ≡ some signal) × (signal.reason ≡ hard_stop))
        × Sells before qty after
  unfolding crypto_ai_trader.Runtime.PaperCycle.log_id
  resume-Sold before qty (s, ok y) (x, e, done, signal, sells) =
      let same : y ≡ x = ground arith in rw same (simp done (_, refl, refl, refl, signal, sells))
  resume-Sold before qty (s, err y) (x, e, done, signal, sells) = absurd (ground arith)

  -- A cycle with an exit engine and an open position whose symbol trades at a positive price at
  -- or below the position's stop (or the engine's if the position has none) returns with the
  -- position reported as sold for the hard stop, and adds to the recorded trades exactly one
  -- market sell of the symbol that fills the whole quantity of the position; this in every trade
  -- mode and whether or not the kill switch is on.
  pub run_paper_cycle-stops_out :
      (engine : ExitEngine) (p : Position) (price stop : Decimal) (s : State)
      → u.exit_engine ≡ some engine
      → i.current_position ≡ some p
      → lookup i.symbol i.market_prices ≡ some price
      → or_default p.stop_reference engine.hard_stop_reference ≡ some stop
      → le price stop ≡ true
      → lt nought p.qty ≡ true
      → lt nought price ≡ true
      → (r : CycleResult) × ((run_paper_cycle u i s).1 ≡ ok r)
        × (r.status ≡ exit_done)
        × (r.exit_executed ≡ true)
        × ((signal : ExitSignal) × (r.exit_signal ≡ some signal) × (signal.reason ≡ hard_stop))
        × Sells s.executions p.qty (run_paper_cycle u i s).0
  unfolding run_paper_cycle run_exit_scan crypto_ai_trader.Runtime.PaperCycle.log_id
  run_paper_cycle-stops_out engine p price stop s has_engine held at set hit some_qty priced =
      let open_position : le p.qty nought ≡ false = ground arith in
      let sells = λ (t : State). scan_at-Sold engine p price stop t set hit some_qty priced in
      resume-Sold s.executions p.qty _ (simp (has_engine, held, open_position, at) (sells _))
