-- ===== src/Selection.antt =====
-- The channel profiles that a viewer has selected, the keyword passes and the saved lineups:
-- internal/plugin/ui/prefs.js.
pub mod State
pub mod Cached
pub mod Passes
mod Tests
