-- ===== src/Runtime/Runner.antt =====
-- trading/runtime/runner.py: the service that runs the trading cycles.
pub mod Baseline
pub mod Inputs
pub mod Once
pub mod Loop
