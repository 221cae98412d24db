-- ===== src/Matchups.antt =====
-- internal/plugin/ui/sports.js: games that two sources list are shown once, with the channels of both.
pub mod State
pub mod Channels
mod Tests
