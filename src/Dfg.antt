-- ===== src/Dfg.antt =====
-- The DFG builder, worker/app/graphs/service/dfg_builder/java.py.
pub mod Extract
pub mod State
pub mod Analysis
pub mod Method
pub mod Invariant
pub mod Edges
pub mod Nodes
pub mod Soundness
pub mod Handlers
pub mod Flow
pub mod Samples
