-- ===== src/Aggregator.antt =====
-- modules/aggregator/cron: the expressions over the counters of a cluster.
pub mod Parse
pub mod Valid
pub mod Compute
pub mod Printed
pub mod Meaning
pub mod Worker
pub mod Mean
pub mod Run
pub mod Pushed
mod Tests
