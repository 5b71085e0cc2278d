-- ===== src/Utils.antt =====
-- common/utils: tags, keys and counters.
pub mod Tags
pub mod Dicted
pub mod Grouped
pub mod Sorted
pub mod Reading
mod Tests
