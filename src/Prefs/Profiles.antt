-- ===== src/Prefs/Profiles.antt =====
-- internal/plugin/ui/prefs.js: the preferences that are kept for each Silo profile, under
-- `profiles[profileID]` of the stored preferences.
pub mod Laws
use silo_plugin_dispatcharr.Base.{
  ℕ, zero, suc, ◌+◌, ◌-◌, ◌*◌, ◌/◌, ◌%◌, ◌≤◌, ◌<◌, min, max, String, ◌≡◌, refl, sym, ap, ◌∙◌, ◌≢◌,
  ◌↔◌, ◌⊎◌, inl, inr, Bool, true, false, ◌&&◌, ◌||◌, not, Option, none, some, List, [], ◌∷◌, ◌++◌,
  map, foldl, arith, ltb, leb, nat_beq, if◌then◌else◌, ltb→lt, lt→ltb, leb→le, le→leb, nat_beq_iff,
  Bool-cases, Option-cases, is_some, length, get_elem?, take, drop, filter, take_last,
  length-append, length-take, length-drop, length-take_last, length-filter-le, All, All-append,
  All-take, All-drop, All-filter, filter-ext, Eq, ◌==◌, nat_eq, string_eq, beq_refl, beq_of_ne,
  beq_sym, contains, IsDistinct, contains-append, contains-filter, filter-IsDistinct,
  contains-take-false, take-IsDistinct, All-contains,
}
use silo_plugin_dispatcharr.Prefs.Json.{Json, obj, Fields, end, get, put, remove}
use silo_plugin_dispatcharr.Prefs.Diff.{prefs_plain_object, fields_of, write_entry}

abbrev pub profile_scoped_pref_keys : List String
profile_scoped_pref_keys =
    "favorites" ∷ "favoriteOrder" ∷ "hiddenCategories" ∷ "sportsStatsDelaySeconds" ∷ []

-- The section of a profile, `none` for null.
section_of : Option Json → Option Fields
section_of (some (obj section)) = some section
section_of _ = none

unfoldable pub prefs_profile_section : Fields → String → Option Fields
unfolding section_of
prefs_profile_section remote profile_id =
    if profile_id == "" || not (prefs_plain_object (get "profiles" remote))
    then none
    else section_of (get profile_id (fields_of (get "profiles" remote)))

-- The loops over the scoped keys copy each entry from `source`, or delete it where `source` has
-- none.
copy_entry : Fields → Fields → String → Fields
copy_entry source target key = write_entry (get key source) key target

unfoldable pub copy_scoped : Fields → Fields → Fields
unfolding copy_entry
copy_scoped source target = foldl (copy_entry source) target profile_scoped_pref_keys

-- The stored preferences as a profile sees them.
unfoldable pub profile_view : Fields → String → Fields
profile_view remote profile_id =
    let view = remove "profiles" remote in
    elim (prefs_profile_section remote profile_id) [
      | none ↦ view
      | some section ↦ copy_scoped section view
    ]

-- `Object.assign({}, section)` of a section that may be missing.
abbrev pub or_empty : Option Fields → Fields
or_empty none = end
or_empty (some section) = section

-- The merged view put back into the stored preferences.
unfoldable pub merge_profile_view : Fields → Fields → String → Fields
merge_profile_view remote merged profile_id =
    let bare = remove "profiles" merged in
    let stored = get "profiles" remote in
    let result =
      if prefs_plain_object stored then put "profiles" (obj (fields_of stored)) bare else bare in
    let section = copy_scoped merged (or_empty (prefs_profile_section remote profile_id)) in
    let legacy = copy_scoped remote result in
    if profile_id == ""
    then result
    else put "profiles" (obj (put profile_id (obj section) (fields_of (get "profiles" legacy))))
        legacy
