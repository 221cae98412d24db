-- ===== src/Replays.antt =====
-- internal/plugin/ui/sports_replays.js: which replays of the catalog belong to an event.
pub mod Windows
pub mod Cover
pub mod Pages
pub mod Matching
pub mod Matched
pub mod Ranking
mod Tests
