-- ===== src/Knowledge.antt =====
-- The knowledge side: src/ragflow_agent/knowledge.
pub mod Errors
pub mod Authorization
pub mod Retry
pub mod Ingestion
pub mod Document
pub mod Lifecycle
pub mod Tables
pub mod Publishing
pub mod Rollback
pub mod Query
pub mod Chunking
pub mod Advanced
