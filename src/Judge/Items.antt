-- ===== src/Judge/Items.antt =====
-- modules/judge/store/history.go and modules/judge/rpc/receiver.go: the lists of all counters, in
-- 256 maps, and the call that takes points in.
pub mod Maps
pub mod Kept
pub mod Cleaned
