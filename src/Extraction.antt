-- ===== src/Extraction.antt =====
-- src/services/memory_extraction.rs: automatic extraction of memories.
-- `Verifier` has the deterministic checks on what the model proposes, `Response` the reading of its
-- answer.
pub mod Verifier
pub mod Response
pub mod Client
pub mod Statements
pub mod Process
