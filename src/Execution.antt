-- ===== src/Execution.antt =====
-- trading/execution: the gate, the paper executor, the exchange's order filters, the live executor.
pub mod Gate
pub mod PaperExecutor
pub mod Exchange
pub mod Filters
pub mod Orders
pub mod LiveExecutor
