-- ===== src/Report.antt =====
-- honua_esri_assess/report: the readiness report's heuristics.
pub mod Counts
mod Complexity
pub mod Dependency
mod Pay
mod Kahn
mod Edges
pub mod Ordered
pub mod Items
pub mod Ordering
pub mod Review
mod Same
mod Reasons
mod Given
mod Found
mod Reviewed
mod Ranks
mod Groups
mod Tests
