-- ===== src/Runtime/PaperCycle/Safety.antt =====
-- What a bought position rests on.
pub mod Buying
pub mod Clearing
use crypto_ai_trader.Base.{
  ℕ, ◌+◌, ◌≤◌, ◌≡◌, ◌≢◌, refl, List, [], ◌∷◌, ◌++◌, Option, none, some, Bool, true, false, last?,
  Result, ok, err,
}
use crypto_ai_trader.Base.Dict.{lookup}
use crypto_ai_trader.Decimal.{Decimal, nought, lt}
use crypto_ai_trader.Strategies.Base.{buy, TradeCandidate}
use crypto_ai_trader.Execution.Gate.{paper_auto}
use crypto_ai_trader.Execution.PaperExecutor.{PaperOrder, PaperFill}
use crypto_ai_trader.Risk.Profiles.{RiskProfile, select_risk_profile}
use crypto_ai_trader.Risk.PreTrade.{default_limits}
use crypto_ai_trader.Risk.PreTrade.Approval.{Admissible}
use crypto_ai_trader.Risk.Sizing.{PositionSizeResult}
use crypto_ai_trader.Risk.Sizing.Bounds.{IsBounded}
use crypto_ai_trader.Ai.Scorer.{reject, Payload, RawScore, model_validate, AiScoreResult}
use crypto_ai_trader.Runtime.PaperCycle.{CycleInput, Setup, State, CycleResult}
use crypto_ai_trader.Runtime.PaperCycle.Entry.{snapshot}

-- A result that reports a bought position has a last recorded trade with the property `P`.
abbrev pub Guarded : (PaperOrder × PaperFill → Type 0) → State × Result CycleResult → Type 0
Guarded P (s, ok r) =
    (r.order_executed ≡ true)
    → (trade : PaperOrder × PaperFill) × (last? s.executions ≡ some trade) × P trade
Guarded P (s, err e) = Unit

-- The order is the market buy of a candidate with a size.
abbrev pub Orders : TradeCandidate → PositionSizeResult → PaperOrder × PaperFill → Type 0
Orders c size (order, fill) =
    (order.side ≡ buy)
    × (order.symbol ≡ c.symbol)
    × (order.requested_notional_usdt ≡ size.notional_usdt)

module _ (u : Setup) (i : CycleInput) where
  -- The risk checks admitted the candidate, the symbol has a positive market price, the size is
  -- bounded, and the mode is `paper_auto`.
  abbrev pub Sized : TradeCandidate → PaperOrder × PaperFill → Type 0
  Sized c trade =
      (profile : RiskProfile) × (price : Decimal) × (size : PositionSizeResult)
      × (multiplier : Decimal) × (select_risk_profile i.account_equity none ≡ ok profile)
      × Admissible (snapshot u i) profile default_limits
      × (lookup i.symbol i.market_prices ≡ some price)
      × (lt nought price ≡ true)
      × IsBounded c profile multiplier i.account_equity u.min_notional_usdt size
      × (u.mode ≡ paper_auto)
      × Orders c size trade

  -- The client's reply about the candidate is valid, does not reject it and scores it 50 or more.
  abbrev pub Scored : TradeCandidate → Type 0
  Scored c =
      (payload : Payload) × (raw : RawScore) × (score : AiScoreResult) × (payload.candidate ≡ c)
      × (u.client payload ≡ some raw)
      × (model_validate raw ≡ some score)
      × (score.decision_hint ≢ reject)
      × (50 ≤ score.ai_score)
