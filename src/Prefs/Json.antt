-- ===== src/Prefs/Json.antt =====
-- JSON values as `JSON.parse` gives them, and the JavaScript operations on them that
-- internal/plugin/ui/prefs.js uses. A number is kept by its text: `JSON.stringify` and `String`
-- print a finite number alike, and the preferences are only compared, copied and printed.
mod Values
mod Equal
unfoldable pub use Values.*
unfoldable pub use Equal.*
