-- ===== src/Recovery.antt =====
-- src/graph_coder/recovery.py: what is taken up again after a restart.
pub mod Stored
pub mod Restart
