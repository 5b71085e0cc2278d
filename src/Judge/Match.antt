-- ===== src/Judge/Match.antt =====
-- modules/judge/store/judge.go, up to sendEventProxy: which strategies and expressions a point is
-- judged by.
pub mod Related
pub mod Check
pub mod Total
pub mod Returns
pub mod Once
