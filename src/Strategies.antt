-- ===== src/Strategies.antt =====
-- trading/strategies: the candidate that strategies hand on.
pub mod Base
pub mod Exits
pub mod Momentum
