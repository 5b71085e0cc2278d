-- ===== src/Transfer.antt =====
-- modules/transfer: what the agents report, checked, and sent on to the judges, the graphs, the
-- pre-aggregation and the other stores.
pub mod Model
pub mod Receive
pub mod Queues
pub mod Send
pub mod Handler
pub mod Grows
pub mod Routed
pub mod Delivered
pub mod Aligned
pub mod Checked
pub mod Counts
mod Tests
