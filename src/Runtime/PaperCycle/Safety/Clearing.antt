-- ===== src/Runtime/PaperCycle/Safety/Clearing.antt =====
-- From the candidate to the bought position: the checks that were passed on the way.
use crypto_ai_trader.Base.{
  ◌≤◌, ◌≡◌, ◌≢◌, refl, List, Option, none, some, true, false, ◌||◌, ltb, Result, ok, err, arith,
  Bool-cases, inl, inr,
}
use crypto_ai_trader.Base.Dict.{lookup}
use crypto_ai_trader.Decimal.{Decimal}
use crypto_ai_trader.Strategies.Base.{TradeCandidate}
use crypto_ai_trader.Strategies.Momentum.{generate_momentum_candidate}
use crypto_ai_trader.Features.Builder.{CandleFeatures, build_features}
use crypto_ai_trader.Execution.PaperExecutor.{PaperOrder, PaperFill}
use crypto_ai_trader.Risk.Profiles.{RiskProfile, select_risk_profile}
use crypto_ai_trader.Risk.PreTrade.{PreTradeRiskDecision, default_limits, evaluate_pre_trade_risk}
use crypto_ai_trader.Risk.PreTrade.Approval.{Admissible, evaluate_pre_trade_risk-approved_iff}
use crypto_ai_trader.Risk.Sizing.{PositionSizeResult, calculate_position_size}
use crypto_ai_trader.Risk.Sizing.Bounds.{calculate_position_size-IsBounded}
use crypto_ai_trader.Ai.Scorer.{AiScoreResult, DecisionHint, reject, score_candidate}
use crypto_ai_trader.Ai.Scorer.FailClosed.{score_candidate-valid}
use crypto_ai_trader.Runtime.PaperCycle.{CycleInput, Setup, State, CycleResult, ExitOutcome}
use crypto_ai_trader.Runtime.PaperCycle.Execution.{execute_plan}
use crypto_ai_trader.Runtime.PaperCycle.Entry.{
  is_reject, snapshot, payload, plan, after_size, size_at, after_risk, check_risk, select_profile,
  after_score,
}
use crypto_ai_trader.Runtime.PaperCycle.Run.{
  after_candidate, with_15m, with_1h, with_4h, scan_entry, after_exit_scan, run_paper_cycle,
}
use crypto_ai_trader.Runtime.PaperCycle.Safety.{Guarded, Sized, Scored}
use crypto_ai_trader.Runtime.PaperCycle.Safety.Buying.{
  attempt-Guarded, Placed, execute_plan-Guarded,
}

Guarded-map :
    (P Q : PaperOrder × PaperFill → Type 0) (o : State × Result CycleResult)
    → ((trade : PaperOrder × PaperFill) → P trade → Q trade)
    → Guarded P o
    → Guarded Q o
Guarded-map P Q (s, ok r) f g =
    λ yes_bought. let (trade, e, p) = g yes_bought in (trade, e, f trade p)
Guarded-map P Q (s, err e) f g = tt

module _ (u : Setup) (i : CycleInput) where
  module _ (c : TradeCandidate) (x : ExitOutcome) (ai : AiScoreResult) where
    after_size-Guarded :
        (profile : RiskProfile) (d : PreTradeRiskDecision) (price : Decimal) (s : State)
        (size : PositionSizeResult)
        → select_risk_profile i.account_equity none ≡ ok profile
        → Admissible (snapshot u i) profile default_limits
        → lookup i.symbol i.market_prices ≡ some price
        → calculate_position_size c d profile i.account_equity u.min_notional_usdt ≡ ok size
        → Guarded (Sized u i c) (after_size u i c x ai d price s size)
    after_size-Guarded profile d price s size selected admitted priced e =
        let bounded = λ (sized : size.approved ≡ true).
          (calculate_position_size-IsBounded c d profile i.account_equity u.min_notional_usdt e
            sized).2 in
        elim (Bool-cases size.approved) [
          | inr refused ↦ simp refused (λ no. absurd (ground arith))
          | inl sized ↦ simp sized (
              Guarded-map (Placed u i (plan u i c x ai d price size)) (Sized u i c)
                (execute_plan u i (plan u i c x ai d price size) _)
                (λ trade (mode, accepted, paid, orders). (
                  profile,
                  price,
                  size,
                  d.size_multiplier,
                  selected,
                  admitted,
                  priced,
                  paid,
                  bounded sized,
                  mode,
                  orders,
                ))
                (execute_plan-Guarded u i (plan u i c x ai d price size) _))
        ]

    size_at-Guarded :
        (profile : RiskProfile) (d : PreTradeRiskDecision) (price : Option Decimal) (s : State)
        → select_risk_profile i.account_equity none ≡ ok profile
        → Admissible (snapshot u i) profile default_limits
        → lookup i.symbol i.market_prices ≡ price
        → Guarded (Sized u i c) (size_at u i c x ai profile d price s)
    size_at-Guarded profile d none s selected admitted priced = λ no. absurd (ground arith)
    size_at-Guarded profile d (some price) s selected admitted priced =
        attempt-Guarded (Sized u i c) s _ (after_size u i c x ai d price s)
          λ size e. after_size-Guarded profile d price s size selected admitted priced e

    after_risk-Guarded :
        (profile : RiskProfile) (s : State) (d : PreTradeRiskDecision)
        → select_risk_profile i.account_equity none ≡ ok profile
        → evaluate_pre_trade_risk c (snapshot u i) profile default_limits ≡ ok d
        → Guarded (Sized u i c) (after_risk u i c x ai profile s d)
    after_risk-Guarded profile s d selected e = elim (Bool-cases d.approved) [
      | inr refused ↦ simp refused (λ no. absurd (ground arith))
      | inl accepted ↦ simp accepted (
          size_at-Guarded profile d (lookup i.symbol i.market_prices) s selected
            ((evaluate_pre_trade_risk-approved_iff c (snapshot u i) profile default_limits e).0
              accepted)
            refl)
    ]

    check_risk-Guarded :
        (s : State) (profile : RiskProfile)
        → select_risk_profile i.account_equity none ≡ ok profile
        → Guarded (Sized u i c) (check_risk u i c x ai s profile)
    check_risk-Guarded s profile selected =
        attempt-Guarded (Sized u i c) s
          (evaluate_pre_trade_risk c (snapshot u i) profile default_limits)
          (after_risk u i c x ai profile s) λ d e. after_risk-Guarded profile s d selected e

    select_profile-Guarded : (s : State) → Guarded (Sized u i c) (select_profile u i c x ai s)
    select_profile-Guarded s =
        attempt-Guarded (Sized u i c) s (select_risk_profile i.account_equity none)
          (check_risk u i c x ai s) λ profile selected. check_risk-Guarded s profile selected

    -- The score did not turn the candidate down, and the candidate was sized.
    abbrev Passed : PaperOrder × PaperFill → Type 0
    Passed trade = (is_reject ai.decision_hint ≡ false) × (50 ≤ ai.ai_score) × Sized u i c trade

    after_score-Guarded : (s : State) → Guarded Passed (after_score u i c x ai s)
    unfolding after_score
    after_score-Guarded s = elim (Bool-cases (is_reject ai.decision_hint || ltb ai.ai_score 50)) [
      | inl turned_down ↦ simp turned_down (λ no. absurd (ground arith))
      | inr fine ↦ simp fine (
          Guarded-map (Sized u i c) Passed (select_profile u i c x ai _)
            (λ trade sized. (ground arith, ground arith, sized)) (select_profile-Guarded _))
    ]

  -- Some candidate was scored and sized.
  abbrev pub Cleared : PaperOrder × PaperFill → Type 0
  Cleared trade = (c : TradeCandidate) × Scored u i c × Sized u i c trade

  hint-ne : (hint : DecisionHint) → is_reject hint ≡ false → hint ≢ reject
  hint-ne hint h = ground arith

  module _ (x : ExitOutcome) (s : State) (f15 f1 f4 : List CandleFeatures) where
    after_candidate-Guarded :
        (c : Option TradeCandidate) → Guarded Cleared (after_candidate u i x s f15 f1 f4 c)
    after_candidate-Guarded none = λ no. absurd (ground arith)
    after_candidate-Guarded (some c) =
        let sent = payload u i f15 f1 f4 c in
        Guarded-map (Passed c x (score_candidate u.client sent)) Cleared
          (after_score u i c x (score_candidate u.client sent) _)
          (λ trade (kept, high, sized).
            let (raw, replied, reads, rest) =
              score_candidate-valid u.client sent (hint-ne _ kept) in
            (c, (sent, raw, _, refl, replied, reads, hint-ne _ kept, high), sized))
          (after_score-Guarded c x (score_candidate u.client sent) _)

  scan_entry-Guarded : (x : ExitOutcome) (s : State) → Guarded Cleared (scan_entry u i x s)
  unfolding scan_entry
  scan_entry-Guarded x s =
      attempt-Guarded Cleared s (build_features u.candles_15m) (with_15m u i x s) λ f15 _.
        attempt-Guarded Cleared s (build_features u.candles_1h) (with_1h u i x s f15) λ f1 _.
          attempt-Guarded Cleared s (build_features u.candles_4h) (with_4h u i x s f15 f1) λ f4 _.
            attempt-Guarded Cleared s (generate_momentum_candidate i.symbol f15 f1 f4 i.now)
              (after_candidate u i x s f15 f1 f4) λ c _. after_candidate-Guarded x s f15 f1 f4 c

  after_exit_scan-Guarded :
      (s : State) (x : ExitOutcome) → Guarded Cleared (after_exit_scan u i s x)
  after_exit_scan-Guarded s x = elim (Bool-cases x.executed) [
    | inl e ↦ simp e (λ no. absurd (ground arith))
    | inr e ↦ simp e (scan_entry-Guarded x s)
  ]

-- A cycle reports `order_executed` only if the last recorded trade is the market buy of a
-- candidate that the scoring client validly scored at 50 or more without rejecting it, that the
-- pre-trade checks admitted (kill switch off, fresh data, daily loss and limits kept) under the
-- profile selected for the equity, whose symbol has a positive market price, whose notional is
-- within the bounds of that profile, and the mode is `paper_auto`.
pub run_paper_cycle-buys_only_Cleared :
    (u : Setup) (i : CycleInput) (s : State) → Guarded (Cleared u i) (run_paper_cycle u i s)
unfolding run_paper_cycle
run_paper_cycle-buys_only_Cleared u i s =
    attempt-Guarded (Cleared u i) _ _ (after_exit_scan u i _) λ x _. after_exit_scan-Guarded u i _ x
