-- ===== src/Auth.antt =====
-- src/auditflow/auth: the life of a refresh token, and the routes that use it.
pub mod Refresh
pub mod Routes
pub mod Access
