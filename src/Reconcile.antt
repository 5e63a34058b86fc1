-- ===== src/Reconcile.antt =====
-- src/honua_migrate/runs/reconciliation.py: the comparison of a source and a target.
pub mod Same
pub mod Compare
pub mod Files
mod Status
mod Bound
mod Tests
