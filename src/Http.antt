-- ===== src/Http.antt =====
-- The read-only HTTP clients of the scanners: honua_esri_assess/scanners/http.py,
-- portal/client.py, portal/pagination.py and server/client.py.
pub mod Wire
pub mod Fetch
mod Fetched
pub mod Server
mod Budget
mod Answers
mod Attempts
pub mod Portal
pub mod Pages
mod Paged
mod Complete
mod Tests
