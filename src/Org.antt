-- ===== src/Org.antt =====
-- x/org: organisations, their members and their leaders.
pub mod Types
pub mod Keeper
pub mod Transfer
pub mod Aggregates
pub mod Outcomes
pub mod Leadership
pub mod Succession
pub mod Tests
