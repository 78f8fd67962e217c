-- ===== src/Knowledge/Advanced.antt =====
-- The optional retrieval of knowledge/advanced.
pub mod Routing
