-- ===== src/Features/Builder.antt =====
-- trading/features/builder.py: the features of each candle, in time order.
pub mod Lengths
use crypto_ai_trader.Base.{
  ℕ, ◌+◌, ◌-◌, String, List, [], ◌∷◌, map, Option, none, some, ◌&&◌, if◌then◌else◌, ltb, leb, take,
  drop, Result, ok, ◌>>=◌,
}
use crypto_ai_trader.Decimal.{Decimal, dec, nought, lt, eq, div, sum_from}
use crypto_ai_trader.Strategies.Base.{Time}
use crypto_ai_trader.MarketData.Schemas.{CandleData}
use crypto_ai_trader.Features.Indicators.{Series, ema, rsi, atr}

pub data TrendState : Type 0 where
  up down neutral unknown : TrendState

pub record CandleFeatures : Type 0 where
  pub symbol : String
  pub timeframe : String
  pub candle_time : Time
  pub close : Decimal
  pub ema_fast : Option Decimal
  pub ema_slow : Option Decimal
  pub ema_200 : Option Decimal
  pub rsi_14 : Option Decimal
  pub atr_14 : Option Decimal
  pub volume_ratio : Option Decimal
  pub trend_state : TrendState

-- `sorted(candles, key=open_time)`, which is stable.
unfoldable pub insert_candle : CandleData → List CandleData → List CandleData
insert_candle c [] = c ∷ []
insert_candle c (d ∷ ds) =
    if leb c.open_time d.open_time then c ∷ d ∷ ds else d ∷ insert_candle c ds

unfoldable pub sort_candles : List CandleData → List CandleData
unfolding insert_candle
sort_candles [] = []
sort_candles (c ∷ cs) = insert_candle c (sort_candles cs)

unfoldable pub trend_state_of : Decimal → Option Decimal → Option Decimal → TrendState
trend_state_of close (some fast) (some slow) =
    if lt slow close && lt slow fast
    then up
    else if lt close slow && lt fast slow
    then down
    else neutral
trend_state_of close _ _ = unknown

-- The volume of the candle at `index` over the average of the 20 before it.
unfoldable pub volume_ratio_at : List CandleData → ℕ → CandleData → Result (Option Decimal)
volume_ratio_at candles index candle =
    if ltb index 20
    then ok none
    else (div (sum_from nought (map CandleData.volume (take 20 (drop (index - 20) candles))))
          (dec 20 0)
        >>= λ average.
            if eq average nought then ok none else (div candle.volume average >>= λ r. ok (some r)))

-- The comprehension over the ordered candles, with the indicators read at the same index.
unfoldable pub features_from :
    List CandleData
    → ℕ
    → List CandleData
    → Series
    → Series
    → Series
    → Series
    → Series
    → Result (List CandleFeatures)
unfolding volume_ratio_at trend_state_of
features_from all index (c ∷ cs) (fast ∷ fs) (slow ∷ ss) (long ∷ ls) (strength ∷ rs)
      (range ∷ ranges) =
    volume_ratio_at all index c >>= λ ratio.
    features_from all (index + 1) cs fs ss ls rs ranges >>= λ rest. ok (
      record {
        symbol = c.symbol;
        timeframe = c.timeframe;
        candle_time = c.open_time;
        close = c.close;
        ema_fast = fast;
        ema_slow = slow;
        ema_200 = long;
        rsi_14 = strength;
        atr_14 = range;
        volume_ratio = ratio;
        trend_state = trend_state_of c.close fast slow;
      }
      ∷ rest)
features_from all index _ _ _ _ _ _ = ok []

unfoldable pub build_features : List CandleData → Result (List CandleFeatures)
unfolding sort_candles features_from
build_features candles = do
  let ordered = sort_candles candles
  let closes = map CandleData.close ordered
  fast ← ema closes 12
  slow ← ema closes 26
  long ← ema closes 200
  strength ← rsi closes 14
  range ← atr (map CandleData.high ordered) (map CandleData.low ordered) closes 14
  features_from ordered 0 ordered fast slow long strength range
