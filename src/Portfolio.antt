-- ===== src/Portfolio.antt =====
-- trading/portfolio: the account that fills are applied to.
pub mod Accounting
