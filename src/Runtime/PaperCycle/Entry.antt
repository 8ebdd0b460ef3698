-- ===== src/Runtime/PaperCycle/Entry.antt =====
-- Stages 3 to 5 of `run_paper_cycle`: the score, the risk check and the size of a candidate.
use crypto_ai_trader.Base.{
  List, [], ◌∷◌, map, Option, none, some, Bool, true, false, ◌||◌, if◌then◌else◌, ltb, last?,
  Result,
}
use crypto_ai_trader.Base.Dict.{lookup}
use crypto_ai_trader.Decimal.{Decimal, nought, eq}
use crypto_ai_trader.Strategies.Base.{buy, TradeCandidate}
use crypto_ai_trader.Features.Builder.{CandleFeatures, TrendState, unknown}
use crypto_ai_trader.Ai.Scorer.{AiScoreResult, DecisionHint, reject, Payload}
use crypto_ai_trader.Risk.Profiles.{RiskProfile, select_risk_profile}
use crypto_ai_trader.Risk.PreTrade.{
  PortfolioRiskSnapshot, PreTradeRiskDecision, default_limits, evaluate_pre_trade_risk,
}
use crypto_ai_trader.Risk.Sizing.{PositionSizeResult, calculate_position_size}
use crypto_ai_trader.Runtime.PaperCycle.{
  CycleInput, Setup, State, ExitOutcome, CycleResult, attempt, log, log_id, cycle_result, info,
  warning, risk_checked, position_sized, risk_rejected_event, risk_checked_event,
  position_sized_event, cycle_finished, text, ai_rejected, risk_rejected, size_rejected,
  ai_rejected_score, reject_text,
}
use crypto_ai_trader.Runtime.PaperCycle.Execution.{Plan, execute_plan}

abbrev pub is_reject : DecisionHint → Bool
is_reject reject = true
is_reject _ = false

abbrev pub latest_trend : List CandleFeatures → TrendState
latest_trend features = elim (last? features) [ none ↦ unknown | some f ↦ f.trend_state ]

-- `latest_15m.rsi_14` when it is true as a Python value, so not 0.
abbrev pub truthy : Option Decimal → Option Decimal
truthy none = none
truthy (some d) = if eq d nought then none else some d

abbrev pub latest_rsi : List CandleFeatures → Option Decimal
latest_rsi features = elim (last? features) [ none ↦ none | some f ↦ truthy f.rsi_14 ]

module _ (u : Setup) (i : CycleInput) where
  abbrev pub snapshot : PortfolioRiskSnapshot
  snapshot = record {
    account_equity = i.account_equity;
    day_start_equity = i.day_start_equity;
    total_position_pct = i.total_position_pct;
    symbol_position_pct = i.symbol_position_pct;
    open_positions = i.open_positions;
    daily_order_count = i.daily_order_count;
    symbol_daily_trade_count = i.symbol_daily_trade_count;
    consecutive_losses = i.consecutive_losses;
    data_is_fresh = i.data_is_fresh;
    kill_switch_enabled = i.kill_switch_enabled;
  }

  abbrev pub payload :
      List CandleFeatures → List CandleFeatures → List CandleFeatures → TradeCandidate → Payload
  payload features_15m features_1h features_4h c = record {
    candidate = c;
    trend_15m = latest_trend features_15m;
    trend_1h = latest_trend features_1h;
    trend_4h = latest_trend features_4h;
    rsi_14 = latest_rsi features_15m;
    account_equity = i.account_equity;
    total_position_pct = i.total_position_pct;
    symbol_position_pct = i.symbol_position_pct;
    consecutive_losses = i.consecutive_losses;
  }

  module _ (c : TradeCandidate) (x : ExitOutcome) (ai : AiScoreResult) where
    abbrev pub plan : PreTradeRiskDecision → Decimal → PositionSizeResult → Plan
    plan d price size = record {
      candidate = c;
      ai = ai;
      risk = d;
      market_price = price;
      size = size;
      exit = x;
    }

    -- Stage 5, from the size on.
    abbrev pub after_size :
        PreTradeRiskDecision → Decimal → State → PositionSizeResult → State × Result CycleResult
    after_size d price s size =
        if size.approved
        then execute_plan u i (plan d price size)
            (log u i position_sized_event info (some buy) position_sized none s)
        else cycle_result u i size_rejected true (some ai) (some d.risk_state) false
            (reject_text "position_size_rejected" ∷ map reject_text size.reject_reasons) x
            (log_id u i cycle_finished info (some buy) position_sized
              (some (text "position_size_rejected"))
              (log u i risk_rejected_event warning (some buy) position_sized
                (some (text "position_size_rejected")) s))

    abbrev pub size_at :
        RiskProfile → PreTradeRiskDecision → Option Decimal → State → State × Result CycleResult
    size_at profile d none s =
        cycle_result u i size_rejected true (some ai) (some d.risk_state) false
          (reject_text "missing_market_price" ∷ []) x
          (log_id u i cycle_finished warning (some buy) position_sized
            (some (text "missing_market_price")) s)
    size_at profile d (some price) s =
        attempt s (calculate_position_size c d profile i.account_equity u.min_notional_usdt)
          (after_size d price s)

    -- Stage 4.
    abbrev pub after_risk : RiskProfile → State → PreTradeRiskDecision → State × Result CycleResult
    after_risk profile s d =
        if d.approved
        then size_at profile d (lookup i.symbol i.market_prices) s
        else cycle_result u i risk_rejected true (some ai) (some d.risk_state) false
            (reject_text "risk_rejected" ∷ map reject_text d.reject_reasons) x
            (log_id u i cycle_finished info (some buy) risk_checked (some (text "risk_rejected")) (
              log u i risk_rejected_event warning (some buy) risk_checked
                (some (text "risk_rejected")) s))

    abbrev pub check_risk : State → RiskProfile → State × Result CycleResult
    check_risk s profile =
        attempt s (evaluate_pre_trade_risk c snapshot profile default_limits) (after_risk profile s)

    abbrev pub select_profile : State → State × Result CycleResult
    select_profile s = attempt s (select_risk_profile i.account_equity none) (check_risk s)

    -- Stage 3b, from the score on.
    unfoldable pub after_score : State → State × Result CycleResult
    after_score s =
        if is_reject ai.decision_hint || ltb ai.ai_score 50
        then cycle_result u i ai_rejected true (some ai) none false
            (ai_rejected_score ai.ai_score ∷ map reject_text ai.risk_flags) x
            (log_id u i cycle_finished info (some buy) risk_checked (some (text "ai_rejected")) (
              log u i risk_rejected_event warning (some buy) risk_checked
                (some (text "ai_rejected")) s))
        else select_profile
            (log u i risk_checked_event info (some buy) risk_checked (some (text "ai_approved")) s)
