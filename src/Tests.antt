-- ===== src/Tests.antt =====
-- Runs of the program's parts at concrete inputs, with stand-ins for what the program calls.
pub mod Fixtures
pub mod Judging
pub mod Scoping
pub mod Sessions
pub mod Asking
pub mod Ingesting
pub mod Retrieving
pub mod Watching
pub mod Chunks
pub mod Identities
pub mod Guarding
