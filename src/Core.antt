-- ===== src/Core.antt =====
-- src/core: the marketplaces and commands, the store of pending approvals, the service that runs
-- an approved command, and the plan of a bulk request.
pub mod Types
pub mod ApprovalRows
pub mod Approvals
pub mod Control
pub mod Bulk
