-- ===== src/Memory.antt =====
-- x/memory: commitments that wait for approval, the approved memories, and the approvals per epoch
-- that the emissions are split by.
pub mod Types
pub mod Keeper
pub mod Approvals
pub mod Pending
pub mod Commit
pub mod Validity
pub mod Expiry
pub mod Archived
pub mod Tests
pub mod ExpiryTests
