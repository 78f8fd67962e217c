-- ===== src/Agent/Graph.antt =====
-- The agentic graph, agent/graphs/agentic_rag.py.
pub mod State
pub mod ToolEvidence
pub mod Evaluation
pub mod Nodes
pub mod Await
pub mod Runs
pub mod Support
pub mod Ledgers
pub mod Termination
