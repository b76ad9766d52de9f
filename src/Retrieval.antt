-- ===== src/Retrieval.antt =====
-- src/auditflow/retrieval
pub mod Fusion
pub mod Consistency
pub mod Caches
pub mod Context
pub mod Scope
