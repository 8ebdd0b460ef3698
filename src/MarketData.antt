-- ===== src/MarketData.antt =====
-- trading/market_data: the candles that the features are built from, and how they are stored.
pub mod Schemas
pub mod Candles
pub mod Ingestion
