-- ===== src/Lineups.antt =====
-- internal/plugin/ui/lineup.js, and of internal/plugin/ui/app.js the categories that are made of the
-- paths of channels and the group wrappers that a profile makes redundant.
pub mod Paths
pub mod Joint
pub mod Categories
pub mod Children
pub mod Counts
pub mod Totals
pub mod Wrappers
pub mod Candidates
pub mod Redundant
mod Tests
