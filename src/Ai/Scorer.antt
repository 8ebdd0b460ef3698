-- ===== src/Ai/Scorer.antt =====
-- trading/ai/scorer.py and trading/ai/schemas.py. The scoring client is a parameter: it brings the
-- five fields as pydantic coerces them to their types, or nothing when it raises or when a field is
-- missing or cannot be coerced.
pub mod FailClosed
use crypto_ai_trader.Base.{
  ℕ, String, List, [], ◌∷◌, Option, none, some, Bool, true, false, ◌&&◌, not, if◌then◌else◌, leb,
  str_eq,
}
use crypto_ai_trader.Base.Int.{ℤ, pos, negsuc}
use crypto_ai_trader.Decimal.{Decimal}
use crypto_ai_trader.Strategies.Base.{TradeCandidate}
use crypto_ai_trader.Features.Builder.{TrendState}

pub data DecisionHint : Type 0 where
  allow allow_reduced_size reject : DecisionHint

pub data MarketRegime : Type 0 where
  trend range high_volatility unknown_regime : MarketRegime

pub record AiScoreResult : Type 0 where
  pub ai_score : ℕ
  pub market_regime : MarketRegime
  pub decision_hint : DecisionHint
  pub risk_flags : List String
  pub explanation : String

-- A reply before its validation.
pub record RawScore : Type 0 where
  pub ai_score : ℤ
  pub market_regime : String
  pub decision_hint : String
  pub risk_flags : List String
  pub explanation : String

-- What the client is sent: the candidate, the market context and the portfolio context.
pub record Payload : Type 0 where
  pub candidate : TradeCandidate
  pub trend_15m : TrendState
  pub trend_1h : TrendState
  pub trend_4h : TrendState
  pub rsi_14 : Option Decimal
  pub account_equity : Decimal
  pub total_position_pct : Decimal
  pub symbol_position_pct : Decimal
  pub consecutive_losses : ℕ

abbrev pub Client : Type 0
Client = Payload → Option RawScore

-- ge=0 and le=100
unfoldable pub read_score : ℤ → Option ℕ
read_score (pos n) = if leb n 100 then some n else none
read_score (negsuc n) = none

unfoldable pub read_hint : String → Option DecisionHint
read_hint text =
    if str_eq text "allow"
    then some allow
    else if str_eq text "allow_reduced_size"
    then some allow_reduced_size
    else if str_eq text "reject"
    then some reject
    else none

unfoldable pub read_regime : String → Option MarketRegime
read_regime text =
    if str_eq text "trend"
    then some trend
    else if str_eq text "range"
    then some range
    else if str_eq text "high_volatility"
    then some high_volatility
    else if str_eq text "unknown"
    then some unknown_regime
    else none

abbrev pub assemble :
    RawScore → Option ℕ → Option MarketRegime → Option DecisionHint → Option AiScoreResult
assemble r (some score) (some regime) (some hint) =
    if str_eq r.explanation ""
    then none
    else some (record {
      ai_score = score;
      market_regime = regime;
      decision_hint = hint;
      risk_flags = r.risk_flags;
      explanation = r.explanation;
    })
assemble r _ _ _ = none

-- `AIScoreResult.model_validate`.
unfoldable pub model_validate : RawScore → Option AiScoreResult
model_validate r =
    assemble r (read_score r.ai_score) (read_regime r.market_regime) (read_hint r.decision_hint)

abbrev pub fail_closed_score : AiScoreResult
fail_closed_score = record {
  ai_score = 0;
  market_regime = unknown_regime;
  decision_hint = reject;
  risk_flags = "ai_error" ∷ [];
  explanation = "AI scoring failed closed.";
}

abbrev pub or_fail_closed : Option AiScoreResult → AiScoreResult
or_fail_closed none = fail_closed_score
or_fail_closed (some r) = r

abbrev pub validated : Option RawScore → Option AiScoreResult
validated none = none
validated (some r) = model_validate r

unfoldable pub score_candidate : Client → Payload → AiScoreResult
score_candidate client payload = or_fail_closed (validated (client payload))
