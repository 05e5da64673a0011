-- ===== src/Emissions.antt =====
-- x/emissions: the emission pool, the epoch mint, the contributors' rewards, the bootstrap
-- credits and the asymmetric gates.
pub mod Types
pub mod Keeper
pub mod Bootstrap
pub mod Mint
pub mod Qualifying
pub mod MsgServer
pub mod Claims
pub mod History
pub mod Genesis
pub mod Tests
pub mod CreditTests
pub mod ClaimTests
