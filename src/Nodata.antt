-- ===== src/Nodata.antt =====
-- The nodata service (modules/nodata): it notices counters that stopped reporting, and reports a mock
-- value in their place.
pub mod Status
pub mod Judge
pub mod Decision
pub mod Others
pub mod Times
mod Tests
