-- ===== src/Settings.antt =====
-- internal/plugin/ui/prefs.js: the normalisers of the admin settings, which the service keeps as one
-- JSON object (normalizeAdminCategorySettings and the normalisers of its fields).
pub mod State
pub mod Unique
pub mod Keywords
pub mod Keep
pub mod Rules
pub mod Windows
pub mod Lists
pub mod Normal
pub mod Shape
pub mod Bounds
pub mod Single
pub mod Layers
mod Tests
