-- ===== src/Confirm.antt =====
-- internal/plugin/ui/core.js, lines 364 to 426: openInlineConfirm and closeInlineConfirm, the question
-- that stands in place of a button before something is deleted.
pub mod State
pub mod Asking
mod Tests
