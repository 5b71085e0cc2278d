-- ===== src/Judge/History.antt =====
-- modules/judge/store/linkedlist.go: the points of one counter, newest first.
pub mod List
pub mod Push
pub mod Read
