-- ===== src/Arcgis.antt =====
-- honua_migrate/services/arcgis.py: plans, imports and handoffs of ArcGIS services.
pub mod Tables
pub mod Refusals
pub mod Expand
mod Expanded
pub mod Client
pub mod Wait
mod Asked
mod Waited
pub mod Redact
mod Hidden
pub mod Apply
mod Queued
mod Applied
pub mod Artifact
pub mod Scope
mod Collect
mod Targets
mod Entries
mod Origins
pub mod Urls
pub mod Handoff
pub mod Command
mod Worst
mod Declared
mod Handed
mod HandoffTests
mod Scoped
mod RedactTests
mod Tests
