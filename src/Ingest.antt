-- ===== src/Ingest.antt =====
-- src/auditflow/ingest: a document as chunks in three stores, kept in step by diffs.
pub mod Store
pub mod Service
