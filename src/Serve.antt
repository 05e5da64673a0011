-- ===== src/Serve.antt =====
-- x/serve: batches of serves, denials and events that consumers sign, with their statistics, and
-- the anchors of the policy versions.
pub mod Types
pub mod Store
pub mod Canonical
pub mod Signing
pub mod Keeper
pub mod Batch
pub mod Writes
pub mod Replay
pub mod Induction
pub mod Caps
pub mod Denials
pub mod Events
pub mod Receipts
pub mod Ledger
pub mod Refinement
pub mod Statistics
pub mod Expired
pub mod EventLog
pub mod Policy
pub mod Messages
pub mod MsgServer
pub mod Authority
pub mod Genesis
pub mod Tests
pub mod RecordTests
pub mod Accusations
