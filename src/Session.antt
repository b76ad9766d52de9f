-- ===== src/Session.antt =====
-- src/auditflow/orchestration/session_store.py: per-user state in Redis; and the endpoint that uses it.
pub mod State
pub mod Store
pub mod Endpoint
