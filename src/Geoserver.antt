-- ===== src/Geoserver.antt =====
-- honua_migrate/services/geoserver.py: the plan and the apply of a GeoServer catalog.
pub mod Checks
pub mod Client
pub mod Apply
pub mod Options
pub mod Wait
mod Repeated
mod Loaded
mod Reviewed
mod Planned
mod Built
mod Restarted
mod Tests
mod OptionTests
