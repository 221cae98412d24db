-- ===== src/Session.antt =====
-- internal/plugin/ui/core.js: requests with the token of the session, and its one refresh at a time.
pub mod State
pub mod Waiting
pub mod Retried
mod Tests
