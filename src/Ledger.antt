-- ===== src/Ledger.antt =====
-- src/graph_coder/events.py and redaction.py: the hash-linked append-only ledger.
pub mod Redaction
pub mod Events
