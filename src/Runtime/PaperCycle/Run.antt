-- ===== src/Runtime/PaperCycle/Run.antt =====
-- `run_paper_cycle` of trading/runtime/paper_cycle.py, from its start to the candidate.
use crypto_ai_trader.Base.{List, [], Option, none, some, false, if◌then◌else◌, Result}
use crypto_ai_trader.Strategies.Base.{sell, buy, TradeCandidate}
use crypto_ai_trader.Strategies.Exits.{ExitSignal}
use crypto_ai_trader.Strategies.Momentum.{generate_momentum_candidate}
use crypto_ai_trader.Features.Builder.{CandleFeatures, build_features}
use crypto_ai_trader.Ai.Scorer.{score_candidate}
use crypto_ai_trader.Runtime.PaperCycle.{
  CycleInput, Setup, State, ExitOutcome, CycleResult, EventReason, attempt, log_id, cycle_result,
  info, cycle_started, cycle_started_event, signal_received, signal_generated, execution_result,
  cycle_finished, exit_reason, text, exit_done, no_signal,
}
use crypto_ai_trader.Runtime.PaperCycle.ExitScan.{run_exit_scan}
use crypto_ai_trader.Runtime.PaperCycle.Entry.{payload, after_score}

abbrev pub reason_of_exit : Option ExitSignal → EventReason
reason_of_exit none = text "exit_executed"
reason_of_exit (some signal) = exit_reason signal.reason

module _ (u : Setup) (i : CycleInput) where
  module _ (x : ExitOutcome) (s : State) where
    -- Stage 3 for a candidate, and the end for none.
    abbrev pub after_candidate :
        List CandleFeatures
        → List CandleFeatures
        → List CandleFeatures
        → Option TradeCandidate
        → State × Result CycleResult
    after_candidate features_15m features_1h features_4h none =
        cycle_result u i no_signal false none none false [] x
          (log_id u i cycle_finished info none signal_received (some (text "no_candidate")) s)
    after_candidate features_15m features_1h features_4h (some c) =
        after_score u i c x
          (score_candidate u.client (payload u i features_15m features_1h features_4h c))
          (log_id u i signal_generated info (some buy) signal_received none s)

    -- Stages 1 and 2.
    abbrev pub with_4h :
        List CandleFeatures → List CandleFeatures → List CandleFeatures → State × Result CycleResult
    with_4h features_15m features_1h features_4h =
        attempt s (generate_momentum_candidate i.symbol features_15m features_1h features_4h i.now)
          (after_candidate features_15m features_1h features_4h)

    abbrev pub with_1h : List CandleFeatures → List CandleFeatures → State × Result CycleResult
    with_1h features_15m features_1h =
        attempt s (build_features u.candles_4h) (with_4h features_15m features_1h)

    abbrev pub with_15m : List CandleFeatures → State × Result CycleResult
    with_15m features_15m = attempt s (build_features u.candles_1h) (with_1h features_15m)

    unfoldable pub scan_entry : State × Result CycleResult
    scan_entry = attempt s (build_features u.candles_15m) with_15m

  -- The end of a cycle that sold the position, or its entry scan.
  abbrev pub after_exit_scan : State → ExitOutcome → State × Result CycleResult
  after_exit_scan s x =
      if x.executed
      then cycle_result u i exit_done false none none false [] x (
          log_id u i cycle_finished info (some sell) execution_result
            (some (reason_of_exit x.signal)) s)
      else scan_entry x s

  unfoldable pub run_paper_cycle : State → State × Result CycleResult
  run_paper_cycle s =
      let started =
        log_id u i cycle_started_event info none cycle_started none (record s { event_ids = [] }) in
      let scanned = run_exit_scan u i started in
      attempt scanned.0 scanned.1 (after_exit_scan scanned.0)
