-- ===== src/Alarm.antt =====
-- modules/alarm: who gets which alarm, and the messages that combine alarms of low priority.
pub mod Model
pub mod Combine
pub mod Grouped
pub mod Delivered
pub mod Users
pub mod Consume
pub mod Free
pub mod Unblocked
mod Tests
