-- ===== src/Favorites.antt =====
-- The favourites, the recent channels and the recent searches of a viewer: internal/plugin/ui/prefs.js
-- and the favourites of app.js.
pub mod State
pub mod Normal
mod Tests
