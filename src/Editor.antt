-- ===== src/Editor.antt =====
-- dashboard/web/src/components/JsonEditor.jsx: the completions of the editor of native JSON.
pub mod Schema
pub mod Scan
pub mod Complete
mod Tests
