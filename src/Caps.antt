-- ===== src/Caps.antt =====
-- honua_esri_assess/caps: the capability keys of a footprint by a crosswalk.
pub mod Crosswalk
pub mod Mapper
pub mod Known
pub mod Covered
pub mod Accounted
mod Tests
