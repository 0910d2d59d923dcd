-- ===== src/Plans.antt =====
-- src/graph_coder/plans.py: plans, their checks, and what a changed plan keeps.
pub mod Documents
pub mod Trace
pub mod Hashes
pub mod Readiness
pub mod Reconcile
pub mod Checks
pub mod Entries
pub mod Parsing
