-- ===== src/Readiness.antt =====
-- honua_migrate/services/target_readiness.py: the preflight of an import.
pub mod Words
pub mod Manifest
pub mod Report
pub mod Preflight
mod Admits
mod Ready
mod Clean
mod Hidden
mod Tests
