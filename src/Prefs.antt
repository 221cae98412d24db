-- ===== src/Prefs.antt =====
-- internal/plugin/ui/prefs.js: the viewer's preferences.
pub mod Json
pub mod Lists
pub mod Diff
pub mod Profiles
pub mod Sync
pub mod Tests
