-- ===== src/Errors.antt =====
-- internal/plugin/ui/core.js, lines 287 to 363: what a failed request says to a viewer and to an
-- administrator.
pub mod State
pub mod Copy
pub mod Causes
mod Tests
