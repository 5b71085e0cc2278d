-- ===== src/Hbs.antt =====
-- modules/hbs: the templates of the hosts and the strategies that the judges get.
pub mod Templates
pub mod Inherit
pub mod One
pub mod Chains
pub mod Owned
pub mod Answers
pub mod Strategies
pub mod Single
pub mod Overrides
pub mod Agents
pub mod Upgrades
mod Tests
