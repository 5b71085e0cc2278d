-- ===== src/Polymetric.antt =====
-- modules/polymetric: what is made of the points of a cluster.
pub mod Worker
pub mod Sorted
pub mod Ranks
pub mod Changes
mod Tests
