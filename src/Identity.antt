-- ===== src/Identity.antt =====
-- x/identity: the migration of a passkey to a wallet address.
pub mod Hex
pub mod Types
pub mod Keeper
pub mod MsgServer
pub mod Genesis
pub mod Guards
pub mod Migration
pub mod Tests
