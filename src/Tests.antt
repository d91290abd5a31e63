-- ===== src/Tests.antt =====
-- Runs of the development at concrete inputs.
mod Setup
mod Chunks
mod Memories
mod Jobs
mod Verification
mod Handlers
mod Configuration
mod Extraction
mod Worker
mod Graph
mod Retrieval
