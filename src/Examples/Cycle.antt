-- ===== src/Examples/Cycle.antt =====
-- Runs of a whole paper trading cycle.
use crypto_ai_trader.Base.{◌≡◌, refl, [], ◌∷◌, none, some, true, false, ok, ◌*◌}
use crypto_ai_trader.Base.Int.{pos}
use crypto_ai_trader.Base.Dict.{lookup}
use crypto_ai_trader.Decimal.{dec, nought, le}
use crypto_ai_trader.Strategies.Exits.{ExitSignal, hard_stop, hour}
use crypto_ai_trader.Execution.Gate.{paper_auto, paused}
use crypto_ai_trader.Ai.Scorer.{Client}
use crypto_ai_trader.Runtime.PaperCycle.{CycleInput, Setup, State, CycleResult, exit_done}
use crypto_ai_trader.Runtime.PaperCycle.Run.{run_paper_cycle}
use crypto_ai_trader.Runtime.PaperCycle.Audit.{counts, Closes}
use crypto_ai_trader.Runtime.PaperCycle.Audit.Totals.{run_paper_cycle-Closes}
use crypto_ai_trader.Runtime.PaperCycle.Safety.{Guarded}
use crypto_ai_trader.Runtime.PaperCycle.Safety.Clearing.{Cleared, run_paper_cycle-buys_only_Cleared}
use crypto_ai_trader.Runtime.PaperCycle.StopOut.{Sells, run_paper_cycle-stops_out}
use crypto_ai_trader.Examples.Data.{unlocked, executor, btc_position, engine, rising}

abbrev allowing : Client
allowing payload = some (record {
  ai_score = pos 72;
  market_regime = "trend";
  decision_hint = "allow";
  risk_flags = [];
  explanation = "Momentum is aligned.";
})

abbrev pub setup : Setup
setup = record {
  trace_id = "0123456789abcdef";
  cycle_id = "BTCUSDT-20250101000000";
  mode = paper_auto;
  lock = unlocked;
  candles_15m = rising 40;
  candles_1h = rising 40;
  candles_4h = rising 40;
  client = allowing;
  executor = executor;
  min_notional_usdt = dec 10 0;
  exit_engine = some engine;
}

abbrev pub flat : CycleInput
flat = record {
  symbol = "BTCUSDT";
  now = 1002 * hour;
  day_start_equity = dec 500 0;
  account_equity = dec 500 0;
  market_prices = ("BTCUSDT", dec 140 0) ∷ [];
  total_position_pct = nought;
  symbol_position_pct = nought;
  open_positions = 0;
  daily_order_count = 0;
  symbol_daily_trade_count = 0;
  consecutive_losses = 0;
  data_is_fresh = true;
  kill_switch_enabled = false;
  current_position = none;
}

abbrev pub empty_state : State
empty_state = record { events = []; executions = []; shadows = []; event_ids = [] }

run_paper_cycle-buys_only_Cleared_example :
    Guarded (Cleared setup flat) (run_paper_cycle setup flat empty_state)
run_paper_cycle-buys_only_Cleared_example = run_paper_cycle-buys_only_Cleared setup flat empty_state

run_paper_cycle-Closes_example :
    Closes (counts empty_state) false (run_paper_cycle setup flat empty_state)
run_paper_cycle-Closes_example = run_paper_cycle-Closes setup flat empty_state

-- The market is below the stop of a held position, the mode is paused and the kill switch is on.
abbrev paused_setup : Setup
paused_setup = record setup { mode = paused }

abbrev falling : CycleInput
falling = record flat {
  market_prices = ("BTCUSDT", dec 94 0) ∷ [];
  kill_switch_enabled = true;
  current_position = some btc_position;
}

run_paper_cycle-stops_out_example :
    (r : CycleResult) × ((run_paper_cycle paused_setup falling empty_state).1 ≡ ok r)
    × (r.status ≡ exit_done)
    × (r.exit_executed ≡ true)
    × ((signal : ExitSignal) × (r.exit_signal ≡ some signal) × (signal.reason ≡ hard_stop))
    × Sells paused_setup falling empty_state.executions btc_position.qty
        (run_paper_cycle paused_setup falling empty_state).0
unfolding lookup le
run_paper_cycle-stops_out_example =
    run_paper_cycle-stops_out paused_setup falling engine btc_position (dec 94 0) (dec 95 0)
      empty_state refl refl refl refl refl refl refl
