-- ===== src/Graph.antt =====
-- domain/graph.py: the graph of interactions between services.
pub mod Paths
pub mod Hosts
pub mod Evidence
pub mod Targets
pub mod Routes
pub mod Edges
pub mod Handlers
pub mod Relations
pub mod Messaging
mod Examples
