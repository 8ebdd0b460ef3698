-- ===== src/Features.antt =====
-- trading/features: indicators and the features of a candle series.
pub mod Indicators
pub mod Builder
