-- ===== src/Api.antt =====
-- dashboard/web/src/data/api.js: the client of the backend.
pub mod Stream
pub mod Session
mod Tests
