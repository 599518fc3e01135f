-- ===== src/Claims.antt =====
-- src/claims: cancellations, returns and exchanges.
pub mod ActionPlan
