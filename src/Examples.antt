-- ===== src/Examples.antt =====
-- The development's tests: its theorems applied to concrete data.
mod Fixtures
mod AgentSide
mod Approvals
mod Graphs
mod Memories
mod Publications
mod Retries
mod Knowledges
mod Chunks
mod Searches
