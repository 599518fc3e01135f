-- ===== src/Settlement.antt =====
-- src/settlement: what the marketplaces pay out.
pub mod Amounts
pub mod Rows
pub mod Reconciliation
