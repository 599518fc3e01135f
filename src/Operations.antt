-- ===== src/Operations.antt =====
-- src/operations: plans about failed marketplace operations.
pub mod Retries
