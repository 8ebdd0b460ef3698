-- ===== src/Runtime/PaperCycle/Execution.antt =====
-- Stages 6 to 9 of `run_paper_cycle`: the gate, the shadow record or the paper order, the end.
use crypto_ai_trader.Base.{
  String, List, [], ◌∷◌, ◌++◌, Option, none, some, Bool, true, false, if◌then◌else◌, Result, ok,
  ◌>>=◌,
}
use crypto_ai_trader.Decimal.{Decimal, one, add, mul, div}
use crypto_ai_trader.Strategies.Base.{buy, TradeCandidate}
use crypto_ai_trader.Risk.PreTrade.{PreTradeRiskDecision}
use crypto_ai_trader.Risk.Sizing.{PositionSizeResult}
use crypto_ai_trader.Execution.Gate.{ExecutionDecision, Route, shadow, decide}
use crypto_ai_trader.Execution.PaperExecutor.{
  PaperOrder, PaperFill, PaperExecutionResult, ten_thousand, execute_market_buy,
}
use crypto_ai_trader.Ai.Scorer.{AiScoreResult}
use crypto_ai_trader.Runtime.PaperCycle.{
  CycleInput, Setup, State, ExitOutcome, CycleResult, EventReason, attempt, record_execution, log,
  log_id, cycle_result, info, warning, execution_attempted, execution_result, no_execution_stage,
  cycle_finished, order_executed_event, execution_attempted_event, execution_gate_blocked,
  shadow_execution_recorded, execution_result_event, gate_reason, gate_blocked_reason, text,
  gate_blocked, shadow_recorded, executed, no_execution, execution_gate,
}

-- `reject_reasons[0] if reject_reasons else "execution_rejected"`
abbrev pub fail_reason : List String → String
fail_reason [] = "execution_rejected"
fail_reason (r ∷ rs) = r

abbrev pub attempt_reason : ExecutionDecision → Option EventReason
attempt_reason g = if g.allowed then none else some (gate_reason g.reason)

-- What the earlier stages hand on.
pub record Plan : Type 0 where
  pub candidate : TradeCandidate
  pub ai : AiScoreResult
  pub risk : PreTradeRiskDecision
  pub market_price : Decimal
  pub size : PositionSizeResult
  pub exit : ExitOutcome

module _ (u : Setup) (i : CycleInput) (p : Plan) where
  abbrev pub finish_bought : State → State × Result CycleResult
  finish_bought s =
      cycle_result u i executed true (some p.ai) (some p.risk.risk_state) true [] p.exit
        (log_id u i cycle_finished info (some buy) execution_result none s)

  abbrev pub finish_refused : State → State × Result CycleResult
  finish_refused s =
      cycle_result u i no_execution true (some p.ai) (some p.risk.risk_state) false [] p.exit
        (log_id u i cycle_finished info (some buy) no_execution_stage none s)

  -- Stages 8 and 9.
  abbrev pub store_buy :
      Bool → Option PaperOrder → Option PaperFill → List String → State → State × Result CycleResult
  store_buy true (some order) (some fill) reasons s = finish_bought (
      log_id u i order_executed_event info (some buy) execution_result none
        (record_execution order fill s))
  store_buy _ _ _ reasons s = finish_refused (
      log u i execution_result_event warning (some buy) execution_result
        (some (text (fail_reason reasons))) s)

  abbrev pub after_buy : State → PaperExecutionResult → State × Result CycleResult
  after_buy s r = store_buy r.approved r.order r.fill r.reject_reasons s

  abbrev pub buy_on_paper : State → State × Result CycleResult
  buy_on_paper s =
      attempt s (execute_market_buy u.executor p.candidate p.size p.market_price i.now)
        (after_buy s)

  -- Stage 7a.
  abbrev pub shadow_price : Result Decimal
  shadow_price =
      div u.executor.slippage_bps ten_thousand >>= λ rate. ok (mul p.market_price (add one rate))

  abbrev pub store_shadow : State → Decimal → State
  store_shadow s price = record s {
    shadows =
        s.shadows
        ++ record {
          symbol = p.candidate.symbol;
          planned_notional_usdt = p.size.notional_usdt;
          reference_price = p.market_price;
          simulated_fill_price = price;
          simulated_slippage_bps = u.executor.slippage_bps;
          decision_reason = p.ai.explanation;
        }
          ∷ [];
  }

  abbrev pub finish_shadow : State → Decimal → State × Result CycleResult
  finish_shadow s price =
      cycle_result u i shadow_recorded true (some p.ai) (some p.risk.risk_state) false [] p.exit (
        log_id u i cycle_finished info (some buy) execution_result (some (text "live_shadow")) (
          log_id u i shadow_execution_recorded info (some buy) execution_result
            (some (text "live_shadow")) (store_shadow s price)))

  abbrev pub by_route : Route → State → State × Result CycleResult
  by_route shadow s = attempt s shadow_price (finish_shadow s)
  by_route _ s = buy_on_paper s

  abbrev pub finish_blocked : ExecutionDecision → State → State × Result CycleResult
  finish_blocked g s =
      cycle_result u i gate_blocked true (some p.ai) (some p.risk.risk_state) false
        (execution_gate g.reason ∷ []) p.exit
        (log_id u i cycle_finished info (some buy) execution_attempted
          (some (gate_blocked_reason g.reason))
          (log u i execution_gate_blocked warning (some buy) execution_attempted
            (some (gate_blocked_reason g.reason)) s))

  abbrev pub after_gate : State → ExecutionDecision → State × Result CycleResult
  after_gate s g =
      let s' =
        log u i execution_attempted_event info (some buy) execution_attempted (attempt_reason g)
          s in
      if g.allowed then by_route g.route s' else finish_blocked g s'

  unfoldable pub execute_plan : State → State × Result CycleResult
  execute_plan s =
      attempt s (decide u.mode u.lock p.risk.approved i.kill_switch_enabled) (after_gate s)
