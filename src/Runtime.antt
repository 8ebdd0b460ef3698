-- ===== src/Runtime.antt =====
-- trading/runtime and the control plane: modes, the trading cycle.
pub mod Mode
pub mod ControlPlane
pub mod PaperCycle
pub mod Reconciliation
pub mod Supervisor
pub mod Runner
