-- ===== src/Guide.antt =====
-- internal/plugin/ui/guide.js: the TV guide's grid. Times are Unix seconds, lengths are whole
-- pixels.
pub mod Range
pub mod Cells
pub mod Nearest
pub mod Search
pub mod Best
pub mod Tests
