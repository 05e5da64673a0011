-- ===== src/Attestation.antt =====
-- x/attestation: attestations of sessions, under two indexes; the message that adds one is disabled.
pub mod Types
pub mod Keeper
pub mod Index
pub mod Listing
pub mod Genesis
pub mod Tests
