-- ===== src/Examples.antt =====
-- Concrete graphs and ledgers, and the theorems at work on them.
pub mod Samples
pub mod Graphs
pub mod Executions
pub mod Ledgers
pub mod Routings
pub mod Routes
pub mod Documents
pub mod Plans
pub mod Statistics
pub mod Recoveries
pub mod Restarts
