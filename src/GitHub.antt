-- ===== src/GitHub.antt =====
-- internal/github/provider.go: the listener's message and the reconciliation of one Pool.
pub mod Intake
pub mod Reconcile
pub mod Steps
pub mod Followed
pub mod Durable
pub mod Acquired
