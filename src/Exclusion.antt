-- ===== src/Exclusion.antt =====
-- dashboard/web/src/data/exclusions.js: the guided editor of exclusion rules.
pub mod Target
pub mod Values
pub mod Controls
pub mod Builder
pub mod Draft
mod Tests
