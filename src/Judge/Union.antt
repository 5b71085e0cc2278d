-- ===== src/Judge/Union.antt =====
-- modules/judge/store/union_judge.go: the alarms that combine several strategies.
pub mod Gather
pub mod Decision
