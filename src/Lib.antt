-- ===== src/Lib.antt =====
-- wevibe-chain: a Cosmos SDK chain whose modules under x/ keep organisations, their memories, the
-- serving of those memories, and what their contributors earn.
--
-- What is modelled:
--   * x/identity binds a passkey to a wallet, once, on a signed message (Identity). Its store is
--     read by a claim of x/emissions.
--   * x/bandwidth gives each organisation a budget of memories and serves per epoch (Bandwidth).
--     x/serve charges the serves; an organisation's leader overrides the caps.
--   * x/emissions mints at the end of each epoch along a fixed schedule, splits the contributors'
--     part among those with enough approvals, and pays it out on a claim (Emissions). It mints and
--     sends through the bank keeper.
--   * x/attestation keeps attestations of sessions under two indexes; its message is disabled
--     (Attestation).
--   * x/memory takes commitments and turns them into memories when a leader approves them (Memory).
--     The approvals of an epoch that it counts are what the emissions are split by. It calls the org
--     and the reputation keepers through the interface Memory.Keeper.Peers. At the end of an epoch it
--     archives the memories whose time is over (Memory.Validity).
--   * x/serve takes batches of serves, denials and events that consumers sign, keeps their receipts
--     and statistics, and anchors policy versions (Serve). A batch of serves is charged to the budget
--     of x/bandwidth and looks up the memories of x/memory, whose states travel in Serve.Batch.World.
--   * x/org keeps organisations, their members and leaders (Org): Keeper has the members and the
--     status, Transfer the calls that grant fee allowances, Aggregates the counts of activity. The
--     other modules ask it who leads and who serves, as arguments or through Serve.MsgServer.OrgKeeper.
--   * x/reputation counts what developers, contributors, leaders and moderators have done
--     (Reputation). x/serve and x/memory report to it. A stored map without entries is read back as
--     nil (Reputation.Types.stored_stats).
-- In each of them Types has the data of types/*.go, Keeper and MsgServer have the methods of
-- keeper/keeper.go and keeper/msg_server.go under the same names in snake_case, and Genesis has the
-- two genesis functions. Emissions.Mint is MintDailyEmission, in the pieces of its body, and
-- AfterEpochEnd of keeper/epoch_hooks.go. Emissions.History is a sequence of messages, each on a
-- branch of the store that is dropped when it fails. Emissions.Qualifying joins x/memory's answer for
-- an epoch to the contributors that the mint pays. Serve.Canonical is types/canonical.go,
-- Serve.Messages the checks of types/msgs.go, and Serve.Batch, Denials, Events and Policy are parts of
-- the keeper and of its message server. Serve.Ledger says what a batch of serves promises, apart from
-- its keys, and Serve.Refinement compares the code with it. Emissions.Mint.Share describes the schedule
-- of the mint apart from its code, and Memory.Pending what the iterator of a submission passes over.
--
-- How the code is read:
--   * A Go string or byte slice is a list of numbers (Common.Bytes), and a key is the bytes that the
--     source builds, decimal numbers included (Common.Decimal).
--   * The store is a record with a field for each key or key prefix. A prefix is a dictionary in
--     ascending order of the whole key, as an iterator visits it (Common.Dict). The store service
--     returns no error, and a stored value decodes to what was encoded.
--   * uint64 sums, differences and products wrap around at 2^64 (Common.Word).
--   * A method is a function from the state to a result and the state (Common.Monad). An error
--     keeps what was written before it, so that no more is rolled back than the code does.
--   * ed25519.Verify panics for a key that has not 32 bytes. Every caller tests the size first but
--     ProcessEventBatch, where the panic is an error that ends the call (Serve.Events).
--   * Every loop is structural recursion over a list. Only the decimal digits take fuel: n + 1 rounds
--     for n, which are enough since a round divides by ten.
--   * The bank, bech32 addresses and ed25519 are parameters (External), with the effect of minting
--     and sending on the module's balance as laws. SHA-256, the decoding of JSON scope tags and
--     RecordServe of the reputation keeper are parameters of x/serve (Serve.Batch.Outside), with no
--     laws, and so is the feegrant keeper of x/org (Org.Transfer.Chain). The answers of the org
--     keeper are arguments of the other modules.
-- Not modelled: of x/memory the reports, relationships, merkle roots, epoch hook, messages and
-- genesis; of x/serve the two readers whose iterators run past their prefix, GetServeReceipts and
-- ExportGenesis; of x/reputation the genesis, the readers of lists, the histograms and the averages,
-- which are floating point; of x/org the registration, the configuration, the serving endpoints, the
-- messages and genesis; the queries, the module wiring, app/ and cmd/; logs and
-- events; the decimal arithmetic of ComputeRarityMultiplier.
pub mod Common
pub mod External
pub mod Identity
pub mod Bandwidth
pub mod Emissions
pub mod Attestation
pub mod Memory
pub mod Org
pub mod Reputation
pub mod Serve
