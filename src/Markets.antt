-- ===== src/Markets.antt =====
-- src/markets: the adapters that need no network, and the registry that chooses one adapter for
-- each marketplace.
pub mod DryRun
pub mod Registry
pub mod Tokens
