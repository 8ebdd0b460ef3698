-- ===== src/MarketData/Schemas.antt =====
-- trading/market_data/schemas.py. The candles come from the database, where their constructor's
-- constraints (prices gt=0, volume ge=0) were met.
use crypto_ai_trader.Base.{String}
use crypto_ai_trader.Decimal.{Decimal}
use crypto_ai_trader.Strategies.Base.{Time}

pub record CandleData : Type 0 where
  pub symbol : String
  pub timeframe : String
  pub open_time : Time
  pub close_time : Time
  pub open_price : Decimal
  pub high : Decimal
  pub low : Decimal
  pub close : Decimal
  pub volume : Decimal
  pub source : String
