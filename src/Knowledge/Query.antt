-- ===== src/Knowledge/Query.antt =====
-- knowledge/application/query: the pure stages of a retrieval.
pub mod Candidates
pub mod Clean
pub mod Fallback
pub mod Rerank
pub mod Fusion
