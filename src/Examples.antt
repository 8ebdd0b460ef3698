-- ===== src/Examples.antt =====
-- Concrete runs of the program's parts.
mod Data
mod Tally
mod Risk
mod Trading
mod Control
mod Cycle
mod Live
mod Ingesting
mod Pages
mod Supervision
mod Running
