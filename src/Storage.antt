-- ===== src/Storage.antt =====
-- Stored documents: crates/vectorless-storage/src.
pub mod Cache
pub mod Migration
mod CacheTests
mod Tests
