-- ===== src/Prefs/Diff.antt =====
-- internal/plugin/ui/prefs.js, `applyPrefsDiff`: the changes from a baseline to this tab's
-- preferences, applied to the stored preferences.
pub mod Laws
pub mod Merge
use silo_plugin_dispatcharr.Base.{
  ℕ, zero, suc, ◌+◌, ◌-◌, ◌*◌, ◌/◌, ◌%◌, ◌≤◌, ◌<◌, min, max, String, ◌≡◌, refl, sym, ap, ◌∙◌, ◌≢◌,
  ◌↔◌, ◌⊎◌, inl, inr, Bool, true, false, ◌&&◌, ◌||◌, not, Option, none, some, List, [], ◌∷◌, ◌++◌,
  map, foldl, arith, ltb, leb, nat_beq, if◌then◌else◌, ltb→lt, lt→ltb, leb→le, le→leb, nat_beq_iff,
  Bool-cases, Option-cases, is_some, length, get_elem?, take, drop, filter, take_last,
  length-append, length-take, length-drop, length-take_last, length-filter-le, All, All-append,
  All-take, All-drop, All-filter, filter-ext, Eq, ◌==◌, nat_eq, string_eq, beq_refl, beq_of_ne,
  beq_sym, contains, IsDistinct, contains-append, contains-filter, filter-IsDistinct,
  contains-take-false, take-IsDistinct, All-contains,
}
use silo_plugin_dispatcharr.Ids.{unique_ids}
use silo_plugin_dispatcharr.Prefs.Json.{
  Json, null, arr, obj, Fields, end, Items, to_list, of_list, of_strings, get, put, remove, keys,
  truthy, display, prefs_value_equal,
}
use silo_plugin_dispatcharr.Prefs.Lists.{merge_prefs_list, prefs_union_list_keys}

abbrev pub prefs_map_keys : List String
prefs_map_keys =
    "favorites" ∷ "autoFavorites" ∷ "hiddenCategories" ∷ "sportsFavoriteTeams"
    ∷ "sportsFavoriteTeamLabels" ∷ "sportsFavoriteLeagues" ∷ "sportsPreferredChannels"
    ∷ "sportsPreferredNetworks" ∷ "featuredEvents" ∷ "continueWatching" ∷ "customGroupMemberships"
    ∷ "playback" ∷ "categoryParsing" ∷ []

-- `JSON.parse(JSON.stringify(value == null ? {} : value))`
abbrev pub prefs_snapshot : Json → Json
prefs_snapshot null = obj end
prefs_snapshot v = v

abbrev pub prefs_plain_object : Option Json → Bool
prefs_plain_object (some (obj f)) = true
prefs_plain_object _ = false

-- `prefsPlainObject(v) ? v : {}`
abbrev pub fields_of : Option Json → Fields
fields_of (some (obj f)) = f
fields_of _ = end

abbrev pub is_array : Option Json → Bool
is_array (some (arr xs)) = true
is_array _ = false

-- `items(v)`
abbrev pub items : Option Json → List Json
items (some (arr xs)) = to_list xs
items _ = []

-- What `uniqueIDs` makes of one element, `String(value || "")`.
abbrev pub id_text : Json → String
id_text v = if truthy v then display v else ""

abbrev pub ids : Option Json → List String
ids v = map id_text (items v)

-- A changed entry is written, and one that this tab deleted is deleted.
abbrev pub write_entry : Option Json → String → Fields → Fields
write_entry none key target = remove key target
write_entry (some v) key target = put key (prefs_snapshot v) target

-- One step of the inner loop, for a map of the preferences.
unfoldable pub diff_sub_key : Fields → Fields → Fields → String → Fields
diff_sub_key before local_map target sub_key =
    let change = write_entry (get sub_key local_map) sub_key target in
    if prefs_value_equal (get sub_key local_map) (get sub_key before) then target else change

unfoldable pub diff_map : Fields → Fields → Fields → Fields
unfolding diff_sub_key
diff_map before local_map target =
    foldl (diff_sub_key before local_map) target (unique_ids (keys before ++ keys local_map))

-- The tests of the two kinds of entries that are merged part by part.
unfoldable pub is_map_entry : String → Option Json → Bool
is_map_entry key new = contains prefs_map_keys key && prefs_plain_object new

unfoldable pub is_list_entry : String → Option Json → Bool
unfolding prefs_union_list_keys
is_list_entry key new = is_some (prefs_union_list_keys key) && is_array new

-- One step of the outer loop.
unfoldable pub diff_key : Fields → Fields → Fields → String → Fields
diff_key baseline local result key =
    let new = get key local in
    let old = get key baseline in
    let stored = get key result in
    if prefs_value_equal new old
    then result
    else if is_map_entry key new
    then put key (obj (diff_map (fields_of old) (fields_of new) (fields_of stored))) result
    else if is_list_entry key new
    then put key (arr (of_strings (merge_prefs_list key (ids stored) (ids old) (ids new)))) result
    else write_entry new key result

-- `!!result.favorites[id]`
abbrev pub is_favorite : Json → Json → Bool
is_favorite (obj f) id = elim (get (display id) f) [ none ↦ false | some v ↦ truthy v ]
is_favorite _ id = false

-- The favourite order lists favourites only, where both are there.
prune_with : Option Json → Option Json → Fields → Fields
prune_with (some favorites) (some (arr xs)) result =
    if truthy favorites
    then put "favoriteOrder" (arr (of_list (filter (is_favorite favorites) (to_list xs)))) result
    else result
prune_with _ _ result = result

unfoldable pub prune_favorite_order : Fields → Fields
unfolding prune_with
prune_favorite_order result =
    prune_with (get "favorites" result) (get "favoriteOrder" result) result

unfoldable pub diff_keys : Fields → Fields → Fields → Fields
unfolding diff_key
diff_keys remote baseline local =
    foldl (diff_key baseline local) remote (unique_ids (keys baseline ++ keys local))

unfoldable pub apply_prefs_diff : Fields → Fields → Fields → Fields
unfolding diff_keys prune_favorite_order
apply_prefs_diff remote baseline local = prune_favorite_order (diff_keys remote baseline local)
