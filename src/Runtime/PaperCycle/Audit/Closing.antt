-- ===== src/Runtime/PaperCycle/Audit/Closing.antt =====
-- What a cycle leaves in the log and in the tables, stage by stage.
use crypto_ai_trader.Base.{
  String, List, Option, none, some, Bool, true, false, ◌||◌, ltb, arith, Bool-cases, inl, inr,
}
use crypto_ai_trader.Decimal.{Decimal}
use crypto_ai_trader.Strategies.Base.{TradeCandidate}
use crypto_ai_trader.Execution.PaperExecutor.{PaperOrder, PaperFill}
use crypto_ai_trader.Execution.Gate.{Route, paper, shadow, blocked, ExecutionDecision}
use crypto_ai_trader.Risk.Profiles.{RiskProfile}
use crypto_ai_trader.Risk.PreTrade.{PreTradeRiskDecision}
use crypto_ai_trader.Risk.Sizing.{PositionSizeResult}
use crypto_ai_trader.Ai.Scorer.{AiScoreResult}
use crypto_ai_trader.Runtime.PaperCycle.{CycleInput, Setup, State, ExitOutcome, log, log_id}
use crypto_ai_trader.Runtime.PaperCycle.Execution.{
  Plan, store_buy, after_buy, buy_on_paper, finish_shadow, by_route, after_gate, execute_plan,
}
use crypto_ai_trader.Runtime.PaperCycle.Entry.{
  is_reject, after_size, size_at, after_risk, check_risk, after_score,
}
use crypto_ai_trader.Runtime.PaperCycle.Audit.{bit, Counts, Grown, Closes, attempt-Closes, tally}

module _ (n : Counts) (u : Setup) (i : CycleInput) where
  module _ (p : Plan) where
    finish_refused-Closes :
        (reasons : List String) (s : State)
        → Grown s n 0 (bit p.exit.executed) 0
        → Closes n p.exit.executed (store_buy u i p false none none reasons s)
    unfolding log log_id
    finish_refused-Closes reasons s (f, t, h) = simp (tally, f, t, h) (ground arith)

    store_buy-Closes :
        (approved : Bool) (order : Option PaperOrder) (fill : Option PaperFill)
        (reasons : List String) (s : State)
        → Grown s n 0 (bit p.exit.executed) 0
        → Closes n p.exit.executed (store_buy u i p approved order fill reasons s)
    unfolding log log_id
    store_buy-Closes false order fill reasons s g = finish_refused-Closes reasons s g
    store_buy-Closes true none fill reasons s g = finish_refused-Closes reasons s g
    store_buy-Closes true (some order) none reasons s g = finish_refused-Closes reasons s g
    store_buy-Closes true (some order) (some fill) reasons s (f, t, h) =
        simp (tally, f, t, h) (ground arith)

    finish_shadow-Closes :
        (s : State) (price : Decimal)
        → Grown s n 0 (bit p.exit.executed) 0
        → Closes n p.exit.executed (finish_shadow u i p s price)
    unfolding log log_id
    finish_shadow-Closes s price (f, t, h) = simp (tally, f, t, h) (ground arith)

    buy_on_paper-Closes :
        (s : State)
        → Grown s n 0 (bit p.exit.executed) 0
        → Closes n p.exit.executed (buy_on_paper u i p s)
    buy_on_paper-Closes s g =
        attempt-Closes n p.exit.executed s _ (after_buy u i p s) g
          λ r. store_buy-Closes r.approved r.order r.fill r.reject_reasons s g

    by_route-Closes :
        (route : Route) (s : State)
        → Grown s n 0 (bit p.exit.executed) 0
        → Closes n p.exit.executed (by_route u i p route s)
    by_route-Closes shadow s g =
        attempt-Closes n p.exit.executed s _ (finish_shadow u i p s) g
          λ price. finish_shadow-Closes s price g
    by_route-Closes paper s g = buy_on_paper-Closes s g
    by_route-Closes blocked s g = buy_on_paper-Closes s g

    after_gate-Closes :
        (s : State) (d : ExecutionDecision)
        → Grown s n 0 (bit p.exit.executed) 0
        → Closes n p.exit.executed (after_gate u i p s d)
    unfolding log log_id
    after_gate-Closes s d (f, t, h) = elim (Bool-cases d.allowed) [
      | inl e ↦ simp e (by_route-Closes d.route _ (simp (tally, f, t, h) (ground arith)))
      | inr e ↦ simp (e, tally, f, t, h) (ground arith)
    ]

    execute_plan-Closes :
        (s : State)
        → Grown s n 0 (bit p.exit.executed) 0
        → Closes n p.exit.executed (execute_plan u i p s)
    unfolding execute_plan
    execute_plan-Closes s g =
        attempt-Closes n p.exit.executed s _ (after_gate u i p s) g λ d. after_gate-Closes s d g

  module _ (c : TradeCandidate) (x : ExitOutcome) (ai : AiScoreResult) where
    after_size-Closes :
        (d : PreTradeRiskDecision) (price : Decimal) (s : State) (size : PositionSizeResult)
        → Grown s n 0 (bit x.executed) 0
        → Closes n x.executed (after_size u i c x ai d price s size)
    unfolding log log_id
    after_size-Closes d price s size (f, t, h) = elim (Bool-cases size.approved) [
      | inl e ↦ simp e (execute_plan-Closes _ _ (simp (tally, f, t, h) (ground arith)))
      | inr e ↦ simp (e, tally, f, t, h) (ground arith)
    ]

    size_at-Closes :
        (profile : RiskProfile) (d : PreTradeRiskDecision) (price : Option Decimal) (s : State)
        → Grown s n 0 (bit x.executed) 0
        → Closes n x.executed (size_at u i c x ai profile d price s)
    unfolding log log_id
    size_at-Closes profile d none s (f, t, h) = simp (tally, f, t, h) (ground arith)
    size_at-Closes profile d (some price) s g =
        attempt-Closes n x.executed s _ (after_size u i c x ai d price s) g
          λ size. after_size-Closes d price s size g

    after_risk-Closes :
        (profile : RiskProfile) (s : State) (d : PreTradeRiskDecision)
        → Grown s n 0 (bit x.executed) 0
        → Closes n x.executed (after_risk u i c x ai profile s d)
    unfolding log log_id
    after_risk-Closes profile s d (f, t, h) = elim (Bool-cases d.approved) [
      | inl e ↦ simp e (size_at-Closes profile d _ s (f, t, h))
      | inr e ↦ simp (e, tally, f, t, h) (ground arith)
    ]

    check_risk-Closes :
        (s : State) (profile : RiskProfile)
        → Grown s n 0 (bit x.executed) 0
        → Closes n x.executed (check_risk u i c x ai s profile)
    check_risk-Closes s profile g =
        attempt-Closes n x.executed s _ (after_risk u i c x ai profile s) g
          λ d. after_risk-Closes profile s d g

    pub after_score-Closes :
        (s : State)
        → Grown s n 0 (bit x.executed) 0
        → Closes n x.executed (after_score u i c x ai s)
    unfolding after_score log log_id
    after_score-Closes s (f, t, h) =
        elim (Bool-cases (is_reject ai.decision_hint || ltb ai.ai_score 50)) [
          | inl e ↦ simp (e, tally, f, t, h) (ground arith)
          | inr e ↦ simp e (
              attempt-Closes n x.executed _ _ _ (simp (tally, f, t, h) (ground arith))
                λ profile. check_risk-Closes _ profile (simp (tally, f, t, h) (ground arith)))
        ]
