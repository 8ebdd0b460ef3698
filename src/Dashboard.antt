-- ===== src/Dashboard.antt =====
-- trading/dashboard_api: what the dashboard reads from the rows of the runtime.
pub mod Events
pub mod Health
pub mod Risk
pub mod Blocking
pub mod ReleaseGate
pub mod Books
pub mod Controls
pub mod Restarts
pub mod Status
