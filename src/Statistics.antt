-- ===== src/Statistics.antt =====
-- src/graph_coder/llm_stats.py: the client of the statistics service.
pub mod Data
pub mod Requests
pub mod Pages
pub mod Cache
