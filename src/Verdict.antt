-- ===== src/Verdict.antt =====
-- honua_esri_assess/verdict: the per-profile migratability verdict.
pub mod Registry
pub mod Detect
pub mod Rationale
pub mod Profile
pub mod Signals
pub mod LockIns
pub mod Extents
pub mod Worst
pub mod Whole
mod Tests
