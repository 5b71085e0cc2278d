-- ===== src/Judge/Sync.antt =====
-- What the judge takes over from HBS.
pub mod Rebuild
pub mod Grouped
pub mod Metrics
