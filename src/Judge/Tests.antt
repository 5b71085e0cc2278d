-- ===== src/Judge/Tests.antt =====
-- Runs of the judge on concrete points, and its theorems at concrete inputs.
mod Functions
mod Alarms
mod Syncing
mod Unions
