-- ===== src/Reputation.antt =====
-- x/reputation: what developers, contributors, leaders and moderators have done.
pub mod Types
pub mod Keeper
pub mod Profiles
pub mod MsgServer
pub mod Distinct
pub mod Breadth
pub mod Award
pub mod NilMaps
pub mod Moderators
pub mod Authority
pub mod Tests
