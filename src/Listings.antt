-- ===== src/Listings.antt =====
-- The guide data of internal/plugin/ui/app.js: programs that are loaded in windows of time, what of
-- the guide is covered, and the index of programs by channel.
pub mod State
pub mod Merge
pub mod Index
pub mod Coverage
pub mod Loading
mod Tests
