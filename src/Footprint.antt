-- ===== src/Footprint.antt =====
-- honua_esri_assess/footprint: facets of the footprint artifact.
pub mod Binding
pub mod Ranking
mod Tests
