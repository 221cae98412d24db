-- ===== src/Player.antt =====
-- internal/plugin/ui/player.js and the playback part of app.js: one channel that plays, with its
-- watch session, its rewind lease and its transcoding session.
pub mod State
pub mod Tasks
pub mod Leases
pub mod Operations
pub mod Resume
pub mod Transcoding
pub mod Steps
pub mod Apart
pub mod Soundness
pub mod Interleavings
pub mod Polls
pub mod Races
mod Tests
