-- ===== src/Routes.antt =====
-- The address of a page: the routes of internal/plugin/ui/app.js, and the navigation of the sports
-- pages in sports.js, which commits them.
pub mod State
pub mod Hash
pub mod RoundTrip
pub mod Navigation
pub mod Sports
mod Tests
