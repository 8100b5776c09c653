-- ===== src/Settings.antt =====
-- components/ServiceAdvancedSettings.jsx: the configuration of a service in its form.
pub mod Defaults
pub mod Config
mod Tests
