-- ===== src/Chunking.antt =====
-- src/auditflow/ingest/title_parser.py, chunker.py, preamble.py and pre_flight_check.py
pub mod Regex
pub mod Titles
pub mod Records
pub mod Plain
pub mod Preflight
