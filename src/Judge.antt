-- ===== src/Judge.antt =====
-- The judge (modules/judge): the history of each counter, the functions of strategies, the alarm
-- events, and the receiver.
pub mod Model
pub mod History
pub mod Function
pub mod Alarm
pub mod Match
pub mod Items
pub mod Sync
pub mod Union
mod Tests
