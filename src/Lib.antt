-- ===== src/Lib.antt =====
-- silo-plugin-dispatcharr: a live TV plugin. A Go service gives channels, guide data, sports and
-- the viewer's settings to a browser application, which is internal/plugin/ui/*.js composed into
-- one script. This library models parts of the browser application that keep state or make
-- decisions, as functions, and proves what makes them correct.
--
-- Parts and files
--   Base             shared helpers: lists, Boolean tests and equality, membership, stable sorting.
--   Ids              internal/plugin/ui/core.js, `uniqueIDs`: distinct identifiers in first order.
--   Prefs            internal/plugin/ui/prefs.js, the viewer's preferences.
--     Prefs.Json     JSON values, and reading, writing and deleting an object's entries.
--     Prefs.Lists    `mergePrefsList`: three-way merge of a list of identifiers.
--     Prefs.Diff     `applyPrefsDiff`: the edits of one tab on top of the stored preferences.
--     Prefs.Profiles `profileView`, `mergeProfileView`: the part that belongs to one profile.
--     Prefs.Sync     `prefsSync` and its operations: `savePrefs`, `runPrefsSave`,
--                    `reloadPrefsFromRemote`, `adoptLoadedPrefs`. `Tab` is the state;
--                    Prefs.Sync.System adds the stored preferences, the running request and the
--                    queue of `queuePluginSettingsWrite`, and runs events in any order.
--                    Prefs.Sync.Tabs runs two such tabs on the same stored preferences.
--   Guide            internal/plugin/ui/guide.js, the grid of the TV guide: the rows that are
--                    rendered (Guide.Range), the cells of a row (Guide.Cells), movement between
--                    rows (Guide.Nearest), the search for programs (Guide.Search, Guide.Best).
--   Companion        internal/plugin/ui/sports_companion.js: the buffer that delays statistics
--                    (Companion.Buffer is its code, Companion.Delay what its readers get), and
--                    its ticks and requests (Companion.Polling, Companion.Replies).
--   Multiview        internal/plugin/ui/multiview.js: the tiles of the multiview page and the
--                    operations on them (Multiview.State), what any operations keep
--                    (Multiview.Invariant, Multiview.Audio), and the watch sessions of the tiles
--                    (Multiview.Sessions).
--   Replays          internal/plugin/ui/sports_replays.js: `catalogWindows`, the ranges of days in
--                    which replays are searched for (Replays.Windows, Replays.Cover), and
--                    `collectCatalogPages`, which reads the catalog (Replays.Pages), and
--                    the scores and matches of an event (Replays.Matching to Replays.Ranking).
--   Player           internal/plugin/ui/player.js and the playback part of app.js (`stopPlayback`,
--                    `stopCurrentWatch`, `setView`, `handlePlaybackFatalError`). Player.State has
--                    what runs up to the first await, Player.Tasks what runs behind each await
--                    (`startWatch`, `playChannel`, `prepareTimeShift`, `tryCompatiblePlayback`) and
--                    the system in which any of them may go on next. Player.Leases to
--                    Player.Soundness hold proofs, Player.Interleavings, Player.Polls and
--                    Player.Races what follows for all orders.
--   Listings         internal/plugin/ui/app.js, the guide data: `mergeGuideWindowPrograms`,
--                    `programsFor` and the index (Listings.State), `fetchGuideWindow` and
--                    `ensureGuideCoverage` with the requests under way (Listings.Coverage).
--   Routes           internal/plugin/ui/app.js, `appRouteHash` and `readAppRouteHash`
--                    (Routes.State), `setView`, and the navigation of sports.js and sports_hub.js
--                    (Routes.Navigation).
--   Favorites        internal/plugin/ui/app.js, the favourites, with `normalizePreferences`,
--                    `recordWatchPreference` and the recent searches of prefs.js.
--   Selection        internal/plugin/ui/prefs.js, the selection of channel profiles with its caches
--                    (Selection.State, Selection.Cached), keyword passes and saved lineups
--                    (Selection.Passes).
--   Matchups         internal/plugin/ui/sports.js, the listings of one game that are joined
--                    (Matchups.State), and their channels (Matchups.Channels).
--   Session          internal/plugin/ui/core.js, `coreFetch` with its refresh and single retry
--                    (Session.State), the calls that wait (Session.Waiting), and what becomes of
--                    a call when refreshes succeed (Session.Retried).
--   Settings         internal/plugin/ui/prefs.js, the settings of the administrator:
--                    `normalizeAdminCategorySettings` (Settings.Normal) with its lists
--                    (Settings.Lists), the rules of keywords (Settings.Keywords) and the layers of
--                    the organisation (Settings.Layers). Settings.Shape, Bounds, Single, Rules and
--                    Windows hold what the normalised settings are.
--   Errors           internal/plugin/ui/core.js, `readableError` and what is said of failures, with
--                    the cause of each text (Errors.Causes).
--   Confirm          internal/plugin/ui/core.js, `openInlineConfirm`: the question, its group, timer
--                    and focus (Confirm.State), and the question as a viewer knows it
--                    (Confirm.Asking).
--   Lineups          internal/plugin/ui/lineup.js, the paths of groups (Lineups.Paths), and of
--                    app.js the categories that are made of them (Lineups.Categories) and the
--                    redundant wrappers of a profile (Lineups.Wrappers). Lineups.Counts and
--                    Totals hold what is counted, Children the two routines for children,
--                    Candidates and Redundant which wrappers are redundant.
-- Favorites, Selection and Settings use Ids, and Settings uses Prefs.Json. Prefs.Diff uses Ids
-- through Prefs.Lists, and Prefs.Sync uses Prefs.Diff and Prefs.Profiles. The other parts stand
-- alone. Files named Tests run the code at small values; Laws and the files beside it hold proofs
-- only.
--
-- How the code is read
--   Objects are lists of fields in insertion order, and a test by `JSON.stringify` is equality of
--   values. A number is kept by its text. The names that every JavaScript object inherits are not
--   treated apart from others. Copies (`prefsSnapshot`) are the values themselves, since no value
--   is mutated; the copy of null is an empty object, as in the code.
--   What the code does between two awaits is one function on the state. A timer is whether it is
--   armed, and its firing an event. Loops are structural recursion on the list that they visit,
--   so no fuel is used. The guide's times are whole seconds and its lengths whole pixels;
--   `performance.now` is taken in whole milliseconds. A subtraction that the code bounds by
--   `Math.max(0, …)` stops at 0 here.
--   `normalizePreferences` and `dropPhantomSportsFollows` are arbitrary functions in Prefs.Sync
--   (`Hooks`), so what is proved holds for any. The texts of Guide.Search (trimming, case, search)
--   are arbitrary functions too (`TextOps`).
--
--   In the player a stop that is asked for is an element of a list, without its reason; an element
--   of the page is taken to be there; a session object without an identifier counts as none; what
--   the shared manager of SiloLiveMedia calls back is left out. Polling is bounded by the counters
--   of the code (30 and 35), so the player's tasks need no fuel. In the guide data a number prints
--   by an arbitrary function, and the page's clock is past the first three hours of 1970. A route is
--   the list of its parts between slashes, and `encodeURIComponent` with its inverse are parameters.
--   The language's operations on texts, patterns included, are parameters of Settings, Errors and
--   Lineups (`Texts`, `Wording`, `PathTexts`), and numbers that are not NaN are a parameter with the
--   laws of their order (`Numbers`), where 0 and -0 are one number. The admin settings come in as the
--   fields of an object and go out as a record; identifiers of libraries stay texts.
--   A map of Favorites is the list of its entries in the order of `Object.keys`.
--
-- Differences that are taken
--   A save and a reload read the stored preferences as they are, where the code first merges the
--   defaults in (`mergePrefs`); the theorems hold for any stored preferences. Favourites that are not
--   an object are read as none. The recent searches of the page's own state, which
--   `rememberSearch` puts a search before, are an arbitrary list. A companion request has no limit
--   of 12 seconds. Calls of `coreFetch` that await one refresh go on in one step when it ends,
--   where the code lets them go on one after the other in the same turn.
--
-- Not modelled: markup, focus handling but for the inline confirmation, toasts and logging; the
-- throttling of reloads by `lastRemoteCheck`; the other settings in the same record of the store;
-- the attaching of multiview players and the replies that start their sessions; the names and
-- words that replays are matched by; the history of the browser; the chrome, menus and volume of
-- the player; the Go service and its handlers; the admin page and the content of the sports
-- pages.
pub mod Base
pub mod Companion
pub mod Confirm
pub mod Errors
pub mod Favorites
pub mod Guide
pub mod Ids
pub mod Lineups
pub mod Listings
pub mod Matchups
pub mod Multiview
pub mod Player
pub mod Prefs
pub mod Replays
pub mod Routes
pub mod Selection
pub mod Session
pub mod Settings
