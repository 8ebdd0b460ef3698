-- ===== src/Strategies/Momentum.antt =====
-- trading/strategies/active/multi_timeframe_momentum.py.
pub mod Alignment
use crypto_ai_trader.Base.{
  String, List, Option, none, some, Bool, true, false, if◌then◌else◌, last?, Result, ok, ◌>>=◌,
}
use crypto_ai_trader.Decimal.{Decimal, dec, nought, le, sub, mul}
use crypto_ai_trader.Strategies.Base.{Time, TradeCandidate, trade_candidate}
use crypto_ai_trader.Features.Builder.{TrendState, up, down, neutral, unknown, CandleFeatures}

abbrev pub is_up : TrendState → Bool
is_up up = true
is_up _ = false

abbrev pub is_down : TrendState → Bool
is_down down = true
is_down _ = false

unfoldable pub momentum_candidate : String → Time → Decimal → Decimal → TradeCandidate
momentum_candidate symbol now entry stop = record {
  strategy_name = "multi_timeframe_momentum";
  symbol = symbol;
  entry_reference = entry;
  stop_reference = stop;
  rule_confidence = dec 70 2;
  reason = "15m/1h momentum aligned with non-bearish 4h context.";
  created_at = now;
}

-- From the fast average and the range of the latest 15m candle on.
abbrev pub from_levels :
    String → Time → Decimal → Option Decimal → Option Decimal → Result (Option TradeCandidate)
from_levels symbol now close (some fast) (some range) =
    let stop = sub close (mul range (dec 2 0)) in
    if le close fast
    then ok none
    else if le stop nought
    then ok none
    else (trade_candidate (momentum_candidate symbol now close stop) >>= λ c. ok (some c))
from_levels symbol now close _ _ = ok none

unfoldable pub from_latest :
    String
    → Time
    → CandleFeatures
    → CandleFeatures
    → CandleFeatures
    → Result (Option TradeCandidate)
from_latest symbol now m15 h1 h4 =
    if is_down h4.trend_state
    then ok none
    else if is_up h1.trend_state
    then if is_up m15.trend_state
      then from_levels symbol now m15.close m15.ema_fast m15.atr_14
      else ok none
    else ok none

abbrev pub from_features :
    String
    → Time
    → Option CandleFeatures
    → Option CandleFeatures
    → Option CandleFeatures
    → Result (Option TradeCandidate)
from_features symbol now (some m15) (some h1) (some h4) = from_latest symbol now m15 h1 h4
from_features symbol now _ _ _ = ok none

unfoldable pub generate_momentum_candidate :
    String
    → List CandleFeatures
    → List CandleFeatures
    → List CandleFeatures
    → Time
    → Result (Option TradeCandidate)
generate_momentum_candidate symbol features_15m features_1h features_4h now =
    from_features symbol now (last? features_15m) (last? features_1h) (last? features_4h)
