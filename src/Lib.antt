-- ===== src/Lib.antt =====
-- The verification library of the seller control hub: a server with which an online seller
-- controls several Korean marketplaces (Naver, Coupang, Gmarket, Lotteon, Toss, Kakao) from a chat
-- bot and from a web page. Paths below are those of the repository.
--
-- The parts and how they interact. A chat message is interpreted as a command for a product on
-- some markets (src/core/types.ts). The control service (src/core/controlService.ts) reads the
-- state of these markets through their adapters (src/markets/adapter.ts) and the approval store
-- (src/core/approvalStore.ts) keeps the command until its sender confirms it; then the service
-- reads the states again and runs the command if they are the approved ones. The registry
-- (src/markets/registry.ts) decides which adapters may write to a real market; all others are
-- dry-run adapters (src/markets/dryRunAdapter.ts) or refuse. Plans for many products or orders are
-- read only: src/core/bulkControlPlan.ts, src/operations/retryQueue.ts,
-- src/claims/claimActionPlan.ts, and the calls for shipments in src/orders/shipmentBatch.ts. The
-- stores of src/persistence keep what must survive a restart.
--
-- The files. Common and its children hold what all parts share: tests, lists, texts as UTF-16 code
-- units, dictionaries in insertion order, records and groups under their keys, stable sorting,
-- results, schemas of arrays with a refinement, and actions that may throw. Core.Types is
-- src/core/types.ts; Core.Approvals, with its rows and their schema in Core.ApprovalRows, is the
-- approval store (`create`, `consume`, `cancel`, `removePersistedFirst`, the constructor with
-- `loadPersisted`, `persist`); Core.Control is the control service (`snapshot`, `executeApproved`,
-- `execute`, `sameSnapshot`) over adapters that are a record of functions; Core.Bulk is the bulk
-- plan. Markets.DryRun and Markets.Registry are the files of the same names under src/markets, and
-- Markets.Tokens is src/markets/accessTokenCache.ts, whose promises are numbers and whose
-- interleavings are a step relation. Operations.Retries is the retry queue, Claims.ActionPlan is
-- src/claims/claimActionPlan.ts, and Orders.Shipments is src/orders/shipmentBatch.ts, with
-- src/orders/shipmentExecutionPlan.ts in its children Pending (`pendingBatchesFor`) and Confirmed.
-- Orders.Transitions is src/orders/statusTransitionPlan.ts. Automation.Alerts, Automation.Digest
-- and Automation.Rules are src/automation/operationsAlert.ts, alertDigest.ts and rulePlanner.ts.
-- Settlement.Reconciliation, with its rows in Settlement.Rows, is
-- src/settlement/settlementReconciliation.ts over Settlement.Amounts, a record of the arithmetic
-- of amounts, which the source does with floating-point numbers. Persistence.Files is the snapshot
-- file with its backup and the queue of mutations, which several stores repeat;
-- Persistence.Ledger, with its rows in Persistence.Registrations, is
-- src/persistence/registrationLedger.ts (`claim`, `finish`, `reconcileMapped`);
-- Persistence.Billing is src/persistence/billingStore.ts (`createOrder`, `failOrder`,
-- `completeOrder`, `cancelOrder`, `entitlement`, `persist`), with its children Changes and Calls.
-- Persistence.Accounts is src/persistence/accountStore.ts, with the methods of the class in its
-- children Calls, SignIns and Administration. Persistence.Links, with its records in
-- Persistence.LinkRecords, is src/persistence/marketLinkStore.ts, and Persistence.Snapshots is
-- src/persistence/orderSnapshotStore.ts. Web.AbuseGuard is src/web/authAbuseGuard.ts: the buckets
-- and their eviction, and in its child Guard the calls of the class, the queue of writes and the
-- restart. Below each of these stand modules named for what they prove, and Examples with the
-- tests.
--
-- How the code is read. A method that changes state is a function from the state to its answer and
-- the new state; one that throws answers an error value and shows what it had changed by then. The
-- clock, new identifiers, hashes, and whether a write of the file system succeeds are inputs of a
-- call. Numbers are natural numbers, as the schemas of the source ask; dates are instants in
-- milliseconds, and texts are lists of code units. The queue of a store runs one operation after
-- the other, so that a run of a store is a list of calls. The loops are recursive on a list or on
-- the number of entries that are too many; only the loop that slices the shipments of a market
-- counts rounds, as many as there are shipments, which is enough since each round takes one at
-- least.
--
-- Not modelled: the clients of the marketplaces and of the payment provider, the HTTP server, the
-- chat bot and the web page, which are input and output around these parts; the text of files,
-- JSON and the conversion of unknown input into typed rows; concurrency within one process beyond
-- the order of the calls; and the parts that are still to be modelled (the catalog, further files
-- on orders, claims, settlement and stock, credentials and logs).
pub mod Automation
pub mod Common
pub mod Claims
pub mod Core
pub mod Markets
pub mod Operations
pub mod Orders
pub mod Persistence
pub mod Settlement
pub mod Web
