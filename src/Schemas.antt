-- ===== src/Schemas.antt =====
-- schemas/*.py: the data that the stages pass to one another.
pub mod Errors
pub mod Generation
pub mod Verification
pub mod Floats
pub mod Retrieval
pub mod Session
