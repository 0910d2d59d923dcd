-- ===== src/Graph.antt =====
-- src/graph_coder/graph.py: the execution graph, its validation and its compilation.
pub mod Node
pub mod Edges
pub mod Entries
pub mod Order
pub mod Authority
pub mod Artifacts
pub mod Scope
pub mod Ancestors
pub mod Writes
pub mod Validate
pub mod Ready
pub mod Units
