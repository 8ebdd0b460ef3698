-- ===== src/Risk.antt =====
-- trading/risk: profiles, the daily-loss circuit breaker, pre-trade checks, sizing, pre-flight.
pub mod Profiles
pub mod State
pub mod PreTrade
pub mod Sizing
pub mod PreFlight
