-- ===== src/Api.antt =====
-- src/api: the handlers of the HTTP API.
pub mod Sources
pub mod Capture
pub mod Memories
pub mod Graph
pub mod Timeline
pub mod Search
