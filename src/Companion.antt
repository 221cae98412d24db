-- ===== src/Companion.antt =====
-- internal/plugin/ui/sports_companion.js: game statistics shown behind the live picture. Times are
-- whole milliseconds of `performance.now`.
pub mod Buffer
pub mod Delay
pub mod Polling
pub mod Replies
pub mod Tests
