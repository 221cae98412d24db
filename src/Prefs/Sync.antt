-- ===== src/Prefs/Sync.antt =====
-- internal/plugin/ui/prefs.js: the save queue of the preferences in one browser tab. An `await`
-- ends a step: what the code does between two of them is one function on the tab's state.
-- The request itself, the toasts and the rendering are outside; a timer is whether it is armed.
use silo_plugin_dispatcharr.Base.{
  ℕ, zero, suc, ◌+◌, ◌-◌, ◌*◌, ◌/◌, ◌%◌, ◌≤◌, ◌<◌, min, max, String, ◌≡◌, refl, sym, ap, ◌∙◌, ◌≢◌,
  ◌↔◌, ◌⊎◌, inl, inr, Bool, true, false, ◌&&◌, ◌||◌, not, Option, none, some, List, [], ◌∷◌, ◌++◌,
  map, foldl, arith, ltb, leb, nat_beq, if◌then◌else◌, ltb→lt, lt→ltb, leb→le, le→leb, nat_beq_iff,
  Bool-cases, Option-cases, is_some, length, get_elem?, take, drop, filter, take_last,
  length-append, length-take, length-drop, length-take_last, length-filter-le, All, All-append,
  All-take, All-drop, All-filter, filter-ext, Eq, ◌==◌, nat_eq, string_eq, beq_refl, beq_of_ne,
  beq_sym, contains, IsDistinct, contains-append, contains-filter, filter-IsDistinct,
  contains-take-false, take-IsDistinct, All-contains,
}
pub mod System
pub mod Clean
pub mod Steps
pub mod Stored
pub mod Races
pub mod Tabs
use silo_plugin_dispatcharr.Prefs.Json.{obj, Fields, end, get, put, remove}
use silo_plugin_dispatcharr.Prefs.Diff.{fields_of, apply_prefs_diff}
use silo_plugin_dispatcharr.Prefs.Profiles.{profile_view, merge_profile_view}

pub data SaveStatus : Type 0 where
  idle saving saved error : SaveStatus

-- `state.app.preferences`, the fields of `prefsSync` and what `localStorage` says of the viewer.
pub record Tab : Type 0 where
  pub preferences : Fields
  pub loaded : Bool
  pub profile_id : String
  pub baseline : Option Fields
  pub dirty : Bool
  pub quiet : Bool
  pub timer : Bool
  pub retry_timer : Bool
  pub status : SaveStatus
  pub active_profile_id : String
  pub installed : Bool

-- Parts of other files: `normalizePreferences`, and `dropPhantomSportsFollows` of sports.js,
-- which gives the changed preferences when it dropped a follow.
pub record Hooks : Type 0 where
  pub normalize : Fields → Fields
  pub drop_phantom_follows : Fields → Option Fields

unfoldable pub prefs_profile_switched : Tab → Bool
prefs_profile_switched t = t.loaded && not (t.profile_id == t.active_profile_id)

unfoldable pub discard_pending_prefs_edits : Tab → Tab
discard_pending_prefs_edits t = record t { timer = false; dirty = false; quiet = true }

unfoldable pub schedule_prefs_flush : Tab → Tab
schedule_prefs_flush t = record t { dirty = true; timer = true }

unfoldable pub schedule_prefs_load_retry : Tab → Tab
unfolding prefs_profile_switched
schedule_prefs_load_retry t =
    if (t.loaded && not (prefs_profile_switched t)) || t.retry_timer || not t.installed
    then t
    else record t { retry_timer = true }

-- `savePrefs(options)`
unfoldable pub save_prefs : Bool → Tab → Tab
unfolding schedule_prefs_flush schedule_prefs_load_retry
save_prefs quiet t =
    if not t.installed
    then record t { status = error }
    else (let marked = record t { quiet = t.quiet && quiet; status = saving } in
        if not t.loaded
        then schedule_prefs_load_retry (record marked { dirty = true })
        else schedule_prefs_flush marked)

-- Follows that a past version made up, removed on every load.
abbrev pub known_phantom_id : String
known_phantom_id = "sports-team:cbe5cfdf7c2118a9"

unfoldable pub drop_known_from : String → Fields → Fields × Bool
drop_known_from key f = elim (get known_phantom_id (fields_of (get key f))) [
  | none ↦ (f, false)
  | some v ↦ (put key (obj (remove known_phantom_id (fields_of (get key f)))) f, true)
]

unfoldable pub drop_known_phantom_sports_follows : Fields → Fields × Bool
drop_known_phantom_sports_follows f =
    let (teams, first) = drop_known_from "sportsFavoriteTeams" f in
    let (labels, second) = drop_known_from "sportsFavoriteTeamLabels" teams in
    (labels, first || second)

-- What a save carries from its start to its end.
pub record Save : Type 0 where
  pub local : Fields
  pub base : Fields
  pub for_profile : String

pub data Begun : Type 0 where
  nothing reload : Begun
  read : Save → Begun

-- `baseline || {}`
abbrev pub or_no_fields : Option Fields → Fields
or_no_fields none = end
or_no_fields (some f) = f

-- `runPrefsSave` up to its first `await`. Timers and pending edits of a viewer who has left are
-- dropped, and the new viewer's preferences are loaded.
unfoldable pub begin_save : Tab → Tab × Begun
unfolding discard_pending_prefs_edits
begin_save t =
    if not t.dirty || not t.loaded
    then (t, nothing)
    else if prefs_profile_switched t
    then (discard_pending_prefs_edits t, reload)
    else (
      record t { dirty = false; quiet = true },
      read (record {
        local = t.preferences;
        base = or_no_fields t.baseline;
        for_profile = t.profile_id;
      }),
    )

-- The merged view of a save, and the preferences that it stores.
unfoldable pub merged_view : Save → Fields → Fields
merged_view s remote = apply_prefs_diff (profile_view remote s.for_profile) s.base s.local

unfoldable pub stored_preferences : Save → Fields → Fields
unfolding merged_view
stored_preferences s remote = merge_profile_view remote (merged_view s remote) s.for_profile

-- The callback of `writePluginSettingsValues`: no write if the viewer changed meanwhile.
unfoldable pub write_save : Tab → Save → Fields → Option Fields
unfolding stored_preferences
write_save t s remote =
    if t.active_profile_id == s.for_profile then some (stored_preferences s remote) else none

-- The write failed: the edits stay pending, and the save is tried again.
unfoldable pub fail_save : Tab → Tab
fail_save t = record t { dirty = true; status = error; retry_timer = true }

-- The write succeeded; edits made since the save began stay on top of the merged view.
unfoldable pub finish_save : Hooks → Save → Fields → Tab → Tab
finish_save hooks s merged t =
    let next = hooks.normalize merged in
    record t {
      preferences = apply_prefs_diff next s.local t.preferences;
      baseline = some next;
      status = if t.dirty then saving else saved;
    }

-- The phantoms that sports.js finds are dropped by a quiet save.
unfoldable pub drop_phantoms : Hooks → Tab → Tab
drop_phantoms hooks t = elim (hooks.drop_phantom_follows t.preferences) [
  | none ↦ t
  | some f ↦ save_prefs true (record t { preferences = f })
]

-- Edits made while no preferences were loaded are applied to the loaded ones.
unfoldable pub reapply : Hooks → Bool → Option Fields → Option Fields → Bool → Tab → Tab
reapply hooks true (some base) (some local) dropped t =
    let next = hooks.normalize (apply_prefs_diff t.preferences base local) in
    schedule_prefs_flush (record t { preferences = (drop_known_phantom_sports_follows next).0 })
reapply hooks dirty base local dropped t = if dropped then schedule_prefs_flush t else t

-- `adoptLoadedPrefs(previousLocal, profileID)`, after `preferences` was replaced.
unfoldable pub adopt_loaded_prefs : Hooks → Option Fields → String → Tab → Tab
adopt_loaded_prefs hooks previous_local next_profile_id t =
    let switched = t.loaded && not (t.profile_id == next_profile_id) in
    let kept = if switched then discard_pending_prefs_edits t else t in
    let adopted = record kept {
      loaded = true;
      profile_id = next_profile_id;
      baseline = some kept.preferences;
      retry_timer = false;
    } in
    let (known, dropped_known) = drop_known_phantom_sports_follows adopted.preferences in
    let cleaned = drop_phantoms hooks (record adopted { preferences = known }) in
    reapply hooks kept.dirty kept.baseline previous_local dropped_known cleaned

-- `reloadPrefsFromRemote` after its `await`: a pending save reads the stored preferences itself.
unfoldable pub finish_reload : Hooks → Fields → Tab → Tab
finish_reload hooks remote t =
    let profile_id = t.active_profile_id in
    let switched = prefs_profile_switched t in
    let left = if switched then discard_pending_prefs_edits t else t in
    let shown = record left { preferences = hooks.normalize (profile_view remote profile_id) } in
    let previous = if switched then none else some t.preferences in
    if not switched && t.loaded && t.dirty
    then t
    else adopt_loaded_prefs hooks previous profile_id shown
