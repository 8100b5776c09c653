-- ===== src/Events.antt =====
-- dashboard/web/src/views/Events.jsx: the list of events, and what of an event is shown and exported.
pub mod Redact
pub mod Page
mod Tests
