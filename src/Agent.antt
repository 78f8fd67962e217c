-- ===== src/Agent.antt =====
-- The agent side: src/ragflow_agent/agent.
pub mod Errors
pub mod Budget
pub mod Values
pub mod Platform
pub mod Schema
pub mod Tools
pub mod Approval
pub mod Evidence
pub mod Memory
pub mod Resilience
pub mod Planning
pub mod Graph
