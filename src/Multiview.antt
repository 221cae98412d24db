-- ===== src/Multiview.antt =====
-- internal/plugin/ui/multiview.js: several live channels side by side, one of them with audio.
pub mod State
pub mod Invariant
pub mod Audio
pub mod Sessions
pub mod Tests
