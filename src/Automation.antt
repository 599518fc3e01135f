-- ===== src/Automation.antt =====
-- src/automation: signals of the shop's operation, the alerts on them, and rules that propose actions.
pub mod Alerts
pub mod Digest
pub mod Rules
