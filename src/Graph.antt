-- ===== src/Graph.antt =====
-- The graph service (modules/graph): the points that wait in memory to be written to disk.
pub mod Linked
pub mod Restore
pub mod Store
pub mod Refines
pub mod Runs
pub mod Index
pub mod Indexed
pub mod Cached
pub mod Receive
pub mod Query
pub mod Last
pub mod Answer
pub mod Consec
pub mod Merged
pub mod Filled
pub mod Joined
pub mod Ranged
pub mod Formatted
pub mod Fresh
pub mod Ordered
pub mod Wait
mod Tests
