-- ===== src/Routing.antt =====
-- src/graph_coder/routing.py: which models a unit of work may be routed to.
pub mod Floats
pub mod Models
pub mod Texts
pub mod Filter
pub mod Subscription
pub mod Scores
pub mod Selection
pub mod Candidates
pub mod Decision
pub mod Receipts
