-- ===== src/Storage.antt =====
-- src/storage.rs: the methods of `Storage`, one child for each group of tables.
pub mod Rows
pub mod Memories
pub mod Graph
pub mod Search
pub mod Jobs
pub mod Sources
pub mod Operations
