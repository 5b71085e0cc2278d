-- ===== src/Base/Float.antt =====
-- float64: the operations that the source uses, as an interface, and the order laws of IEEE 754.
mod Fixed
pub use Fixed.*
mod Defs
pub use Defs.*
