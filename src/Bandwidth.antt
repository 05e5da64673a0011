-- ===== src/Bandwidth.antt =====
-- x/bandwidth: per epoch, how much an organisation may store and serve.
pub mod Types
pub mod Keeper
pub mod Budget
pub mod Consumption
pub mod Allowance
pub mod MsgServer
pub mod Genesis
pub mod Tests
