-- ===== src/Runtime/PaperCycle/Audit/Totals.antt =====
-- What a cycle leaves in the log and in the tables, from its start to its end.
use crypto_ai_trader.Base.{
  ◌≡◌, ◌≢◌, refl, List, Option, none, some, Bool, true, false, Result, ok, err, arith, Bool-cases,
  inl, inr,
}
use crypto_ai_trader.Base.Dict.{lookup}
use crypto_ai_trader.Decimal.{Decimal, nought, le}
use crypto_ai_trader.Strategies.Base.{TradeCandidate}
use crypto_ai_trader.Strategies.Exits.{ExitSignal, ExitEngine, evaluate}
use crypto_ai_trader.Execution.PaperExecutor.{PaperOrder, PaperFill}
use crypto_ai_trader.Execution.PaperExecutor.Outcome.{execute_market_sell_total}
use crypto_ai_trader.Portfolio.Accounting.{Position}
use crypto_ai_trader.Runtime.PaperCycle.{
  CycleInput, Setup, State, ExitOutcome, attempt, log, log_id,
}
use crypto_ai_trader.Runtime.PaperCycle.ExitScan.{
  holding, store_sell, act_on_signal, scan_at, scan_position, run_exit_scan,
}
use crypto_ai_trader.Runtime.PaperCycle.Run.{
  after_candidate, with_15m, with_1h, with_4h, scan_entry, after_exit_scan, run_paper_cycle,
}
use crypto_ai_trader.Runtime.PaperCycle.Audit.{
  bit, Counts, counts, Grown, Closes, attempt-Closes, tally,
}
use crypto_ai_trader.Runtime.PaperCycle.Audit.Closing.{after_score-Closes}
use crypto_ai_trader.Features.Builder.{CandleFeatures, build_features}
use crypto_ai_trader.Strategies.Momentum.{generate_momentum_candidate}

-- An exit scan that returns has recorded a trade exactly if it says so; none raises after one.
abbrev Scanned : Counts → State × Result ExitOutcome → Type 0
Scanned n (s, ok x) = Grown s n 0 (bit x.executed) 0
Scanned n (s, err e) = Grown s n 0 0 0

module _ (n : Counts) (u : Setup) (i : CycleInput) where
  store_sell-Grown :
      (signal : ExitSignal) (approved : Bool) (order : Option PaperOrder) (fill : Option PaperFill)
      (s : State)
      → ((approved ≡ true) → (order ≢ none) × ((f : PaperFill) × (fill ≡ some f)))
      → Grown s n 0 0 0
      → Grown (store_sell u i signal approved order fill s) n 0 (bit approved) 0
  unfolding log_id
  store_sell-Grown signal false order fill s w g = g
  store_sell-Grown signal true none fill s w g = absurd ((w refl).0 refl)
  store_sell-Grown signal true (some order) none s w g = absurd (ground arith)
  store_sell-Grown signal true (some order) (some fill) s w (f, t, h) =
      simp (tally, f, t, h) (ground arith)

  attempt-Scanned {ℓ} :
      {A : Type ℓ} (s : State) (m : Result A) (k : A → State × Result ExitOutcome)
      → Grown s n 0 0 0
      → ((a : A) → Scanned n (k a))
      → Scanned n (attempt s m k)
  attempt-Scanned s (ok a) k h g = g a
  attempt-Scanned s (err e) k h g = h

  act_on_signal-Scanned :
      (s : State) (price : Decimal) (signal : Option ExitSignal)
      → Grown s n 0 0 0
      → Scanned n (act_on_signal u i s price signal)
  unfolding log log_id
  act_on_signal-Scanned s price none (f, t, h) = simp (tally, f, t, h) (ground arith)
  act_on_signal-Scanned s price (some signal) (f, t, h) =
      let (r, e, fills, whole) =
        execute_market_sell_total u.executor i.symbol signal.qty_to_exit price i.now in
      rw e (
        store_sell-Grown signal r.approved r.order r.fill _
          (λ a. ((whole.0 a).1, ((whole.0 a).2.0, (whole.0 a).2.1)))
          (simp (tally, f, t, h) (ground arith)))

  scan_at-Scanned :
      (engine : ExitEngine) (p : Position) (price : Option Decimal) (s : State)
      → Grown s n 0 0 0
      → Scanned n (scan_at u i engine p price s)
  scan_at-Scanned engine p none s g = g
  scan_at-Scanned engine p (some price) s g =
      attempt-Scanned s (evaluate engine p.stop_reference (holding u i p price))
        (act_on_signal u i s price) g λ o. act_on_signal-Scanned s price o g

  scan_position-Scanned :
      (engine : Option ExitEngine) (position : Option Position) (s : State)
      → Grown s n 0 0 0
      → Scanned n (scan_position u i engine position s)
  scan_position-Scanned none position s g = g
  scan_position-Scanned (some engine) none s g = g
  scan_position-Scanned (some engine) (some p) s g = elim (Bool-cases (le p.qty nought)) [
    | inl e ↦ simp e g
    | inr e ↦ simp e (scan_at-Scanned engine p (lookup i.symbol i.market_prices) s g)
  ]

  module _ (x : ExitOutcome) where
    after_candidate-Closes :
        (f15 f1 f4 : List CandleFeatures) (c : Option TradeCandidate) (s : State)
        → Grown s n 0 (bit x.executed) 0
        → Closes n x.executed (after_candidate u i x s f15 f1 f4 c)
    unfolding log_id
    after_candidate-Closes f15 f1 f4 none s (f, t, h) = simp (tally, f, t, h) (ground arith)
    after_candidate-Closes f15 f1 f4 (some c) s (f, t, h) =
        after_score-Closes n u i c x _ _ (simp (tally, f, t, h) (ground arith))

    scan_entry-Closes :
        (s : State) → Grown s n 0 (bit x.executed) 0 → Closes n x.executed (scan_entry u i x s)
    unfolding scan_entry
    scan_entry-Closes s g =
        attempt-Closes n x.executed s (build_features u.candles_15m) (with_15m u i x s) g λ f15.
          attempt-Closes n x.executed s (build_features u.candles_1h) (with_1h u i x s f15) g λ f1.
            attempt-Closes n x.executed s (build_features u.candles_4h) (with_4h u i x s f15 f1) g
              λ f4.
                attempt-Closes n x.executed s (generate_momentum_candidate i.symbol f15 f1 f4 i.now)
                  (after_candidate u i x s f15 f1 f4) g λ c. after_candidate-Closes f15 f1 f4 c s g

  -- Behind the exit scan.
  after_exit_scan-Closes :
      (s : State) (x : ExitOutcome)
      → Grown s n 0 (bit x.executed) 0
      → Closes n false (after_exit_scan u i s x)
  unfolding log_id
  after_exit_scan-Closes s x (f, t, h) = elim (Bool-cases x.executed) [
    | inl e ↦ simp e (simp (tally, f, t, h, e) (ground arith))
    | inr e ↦ simp e ((simp e at (scan_entry-Closes x s (f, t, h))))
  ]

  resume-Closes :
      (scanned : State × Result ExitOutcome)
      → Scanned n scanned
      → Closes n false (attempt scanned.0 scanned.1 (after_exit_scan u i scanned.0))
  resume-Closes (s, ok x) g = after_exit_scan-Closes s x g
  resume-Closes (s, err e) g = g

-- A cycle that returns has added exactly one `cycle_finished` event to the log, exactly one
-- recorded execution for each of `exit_executed` and `order_executed`, and one shadow record
-- exactly if its status is `shadow_recorded`; a cycle that raises has added none of these.
pub run_paper_cycle-Closes :
    (u : Setup) (i : CycleInput) (s : State) → Closes (counts s) false (run_paper_cycle u i s)
unfolding run_paper_cycle run_exit_scan log_id
run_paper_cycle-Closes u i s = resume-Closes (counts s) u i _ (
    scan_position-Scanned (counts s) u i u.exit_engine i.current_position _
      (simp tally (ground arith)))
