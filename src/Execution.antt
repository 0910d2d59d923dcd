-- ===== src/Execution.antt =====
-- src/graph_coder/execution.py: execution states, manager reviews and branch-local failures.
pub mod States
pub mod Review
pub mod Blocking
pub mod Frontier
