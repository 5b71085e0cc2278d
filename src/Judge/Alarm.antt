-- ===== src/Judge/Alarm.antt =====
-- modules/judge/store/judge.go, from sendEventIfNeed on: when an event is sent, and where.
pub mod State
pub mod Send
pub mod Protocol
pub mod Limits
pub mod Panics
