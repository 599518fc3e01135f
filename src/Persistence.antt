-- ===== src/Persistence.antt =====
-- src/persistence: the stores, and what they share: a snapshot file with a backup, and a queue of
-- mutations that publishes a change once it is written.
pub mod Files
pub mod Registrations
pub mod Ledger
pub mod Billing
pub mod Accounts
pub mod LinkRecords
pub mod Links
pub mod Snapshots
