-- ===== src/Prefs/Tests.antt =====
-- Runs of the preferences at small values.
use silo_plugin_dispatcharr.Ids.{unique_ids}
use silo_plugin_dispatcharr.Base.{
  ◌≤◌, String, ◌≡◌, refl, ◌≢◌, true, false, ◌&&◌, not, none, some, List, [], ◌∷◌, ◌++◌, arith,
  if◌then◌else◌, length, take, All, string_eq, nat_eq, ◌==◌, contains, IsDistinct,
}
use mathlib.Core.Bool.{decide}
use silo_plugin_dispatcharr.Prefs.Sync.System.{
  System, Event, free, writing, edit, flush, start, other_tab, read_done, put_done, reload_done,
  run,
}
use silo_plugin_dispatcharr.Prefs.Sync.Tabs.{
  right, stored_at, stored_after, left_first, right_first, both_read,
}
use silo_plugin_dispatcharr.Prefs.Sync.Clean.{IsClean}
use silo_plugin_dispatcharr.Prefs.Sync.Steps.{run-IsClean}
use silo_plugin_dispatcharr.Prefs.Sync.Stored.{stored_entry, stored_other, finish_save_keeps_edits}
use silo_plugin_dispatcharr.Prefs.Sync.Races.{saves_in_turn, overlapping_saves, reload_during_save}
use silo_plugin_dispatcharr.Prefs.Diff.Merge.{get-apply_prefs_diff, apply_prefs_diff_order}
use silo_plugin_dispatcharr.Prefs.Diff.Laws.{merged_entry, merged_value, snapshot_entry}
use silo_plugin_dispatcharr.Prefs.Diff.{
  is_map_entry, is_list_entry, diff_map, fields_of, apply_prefs_diff, is_favorite, items,
}
use silo_plugin_dispatcharr.Prefs.Profiles.{prefs_profile_section, profile_view, merge_profile_view}
use silo_plugin_dispatcharr.Prefs.Profiles.Laws.{is_scoped, get-view-merge}
use silo_plugin_dispatcharr.Prefs.Lists.{prefs_union_list_keys, merge_prefs_list}
use silo_plugin_dispatcharr.Prefs.Lists.Laws.{merged_or_restored}
use silo_plugin_dispatcharr.Ids.Before.{is_before}
use silo_plugin_dispatcharr.Prefs.Lists.Before.{is_before-merge_prefs_list}
use silo_plugin_dispatcharr.Prefs.Lists.Order.{
  contains-merge_favorites, merge_recent_lem, merge_prefs_list-IsDistinct, length-merge_prefs_list,
}
use silo_plugin_dispatcharr.Prefs.Json.{
  put, Json-discrete, prefs_value_equal, remove, bool, str, num, obj, arr, Fields, end, field, nil,
  cons, get,
}
use silo_plugin_dispatcharr.Prefs.Sync.{
  drop_known_phantom_sports_follows, drop_known_from, Tab, Hooks, Save, idle, stored_preferences,
  finish_save,
}

distinct : (a b : String) → (a == b) ≡ false → a ≢ b
distinct a b h = ground (arith, string_eq.beq_iff a b)

abbrev one_favorite : Fields
one_favorite = field "c1" (bool true) end

abbrev two_favorites : Fields
two_favorites = field "c1" (bool true) (field "c2" (bool true) end)

abbrev other_favorite : Fields
other_favorite = field "c1" (bool true) (field "c3" (bool true) end)

-- Preferences with these favourites.
abbrev with_favorites : Fields → Fields
with_favorites f = field "favorites" (obj f) (field "delay" (num "5") end)

abbrev plain_hooks : Hooks
plain_hooks = record { normalize = λ f. f; drop_phantom_follows = λ _. none }

abbrev tab : Tab
tab = record {
  preferences = with_favorites one_favorite;
  loaded = true;
  profile_id = "p1";
  baseline = some (with_favorites one_favorite);
  dirty = false;
  quiet = true;
  timer = false;
  retry_timer = false;
  status = idle;
  active_profile_id = "p1";
  installed = true;
}

abbrev system : System
system = record {
  tab = tab;
  server = with_favorites one_favorite;
  flight = free;
  queued = 0;
  stale = false;
}

abbrev save : Save
save = record {
  local = with_favorites two_favorites;
  base = with_favorites one_favorite;
  for_profile = "p1";
}

abbrev later_save : Save
later_save = record {
  local = with_favorites other_favorite;
  base = with_favorites one_favorite;
  for_profile = "p1";
}

abbrev writing_system : System
writing_system = record {
  tab = record tab { preferences = with_favorites two_favorites };
  server = with_favorites one_favorite;
  flight = writing save (with_favorites one_favorite);
  queued = 0;
  stale = true;
}

-- An edit, its save, and a change of another tab meanwhile.
abbrev saved_events : List Event
saved_events =
    edit false (with_favorites two_favorites)
    ∷ flush
    ∷ start
    ∷ other_tab (with_favorites other_favorite)
    ∷ read_done
    ∷ put_done
    ∷ []

system-IsClean : IsClean system
system-IsClean = record { installed = refl; clean = λ _ _ _ k _ _. refl }

run-IsClean_example : IsClean (run plain_hooks system saved_events)
run-IsClean_example =
    run-IsClean plain_hooks system saved_events (tt, (tt, (tt, (tt, (tt, (tt, tt))))))
      system-IsClean

stored_entry_example :
    get "c3" (
      fields_of (
        get "favorites"
          (profile_view (stored_preferences save (with_favorites other_favorite)) "p1")))
    ≡ merged_entry none none (some (bool true))
unfolding get profile_view prefs_profile_section remove
stored_entry_example =
    stored_entry save (with_favorites other_favorite) two_favorites "favorites" "c3"
      (distinct "c3" "" refl) refl refl

stored_other_example :
    snapshot_entry (
      get "favorites" (profile_view (stored_preferences save (with_favorites other_favorite)) "p2"))
    ≡ snapshot_entry (get "favorites" (profile_view (with_favorites other_favorite) "p2"))
unfolding is_scoped
stored_other_example =
    stored_other save (with_favorites other_favorite) "p2" "favorites" (distinct "p1" "" refl)
      (distinct "p2" "p1" refl) refl

edits_stay :
    get "c3" (
      fields_of (
        get "favorites"
          (finish_save plain_hooks save
            (with_favorites two_favorites)
            (record tab { preferences = with_favorites other_favorite })).preferences))
    ≡ merged_entry none (some (bool true)) none
unfolding get
edits_stay =
    finish_save_keeps_edits plain_hooks save (with_favorites two_favorites) other_favorite
      (record tab { preferences = with_favorites other_favorite }) "favorites" "c3"
      (distinct "c3" "" refl) refl refl

get-apply_prefs_diff_example :
    get "delay" (
      apply_prefs_diff
        (field "delay" (num "9") end)
        (with_favorites one_favorite)
        (with_favorites two_favorites))
    ≡ merged_value "delay" (some (num "5")) (some (num "5")) (some (num "9"))
unfolding get
get-apply_prefs_diff_example =
    get-apply_prefs_diff (field "delay" (num "9") end) (with_favorites one_favorite)
      (with_favorites two_favorites) "delay" (distinct "delay" "" refl)
      (distinct "delay" "favoriteOrder" refl)

merged_order_fits :
    All
      (λ id. is_favorite (obj two_favorites) id ≡ true)
      (items (
        get "favoriteOrder" (
          apply_prefs_diff end end (
            field "favoriteOrder"
              (arr (cons (str "c9") (cons (str "c2") nil)))
              (with_favorites two_favorites)))))
unfolding get apply_prefs_diff unique_ids prefs_value_equal decide Json-discrete is_map_entry
    is_list_entry put diff_map
merged_order_fits =
    apply_prefs_diff_order end end
      (field "favoriteOrder" (arr (cons (str "c9") (cons (str "c2") nil)))
        (with_favorites two_favorites))
      two_favorites refl

get-view-merge_example :
    get "favorites" (
      profile_view
        (merge_profile_view (with_favorites one_favorite) (with_favorites two_favorites) "p1")
        "p1")
    ≡ (if is_scoped "favorites" then snapshot_entry (some (obj two_favorites)) else none)
unfolding get is_scoped
get-view-merge_example =
    get-view-merge (with_favorites one_favorite) (with_favorites two_favorites) "p1"
      (distinct "p1" "" refl) "favorites" (distinct "favorites" "profiles" refl)

saves_in_turn_example :
    (stored_at
        (stored_after plain_hooks tab tab save later_save (with_favorites one_favorite) left_first)
        "p1"
        "favorites"
        "c2"
      ≡ some (bool true))
    × (stored_at
          (stored_after plain_hooks tab tab save later_save
            (with_favorites one_favorite)
            right_first)
          "p1"
          "favorites"
          "c2"
        ≡ some (bool true))
unfolding get prefs_value_equal decide Json-discrete
saves_in_turn_example =
    saves_in_turn plain_hooks tab tab save later_save (with_favorites one_favorite) two_favorites
      other_favorite "favorites" "c2" refl refl refl (distinct "c2" "" refl) refl refl refl refl
      refl

overlapping_saves_example :
    (stored_at
        (stored_after plain_hooks tab tab save later_save (with_favorites one_favorite) both_read)
        "p1"
        "favorites"
        "c2"
      ≡ some (bool true))
    × (stored_at
          (stored_after plain_hooks tab tab save later_save
            (with_favorites one_favorite)
            (both_read ++ right put_done ∷ []))
          "p1"
          "favorites"
          "c2"
        ≡ none)
unfolding get prefs_value_equal decide Json-discrete profile_view prefs_profile_section remove
overlapping_saves_example =
    overlapping_saves plain_hooks tab tab save later_save (with_favorites one_favorite)
      two_favorites other_favorite "favorites" "c2" refl refl refl (distinct "c2" "" refl) refl refl
      refl refl refl

reload_during_save_example :
    let s' = run plain_hooks writing_system (reload_done ∷ put_done ∷ []) in
    (s'.tab.dirty ≡ false)
    × (s'.server ≡ stored_preferences save (with_favorites one_favorite))
    × (get "c2" (fields_of (get "favorites" s'.tab.preferences)) ≡ none)
unfolding drop_known_phantom_sports_follows drop_known_from get profile_view prefs_profile_section
    remove prefs_value_equal decide Json-discrete
reload_during_save_example =
    reload_during_save plain_hooks writing_system save (with_favorites one_favorite) one_favorite
      "favorites" "c2" refl refl refl (λ f. refl) refl (distinct "c2" "" refl) refl refl refl

contains-merge_favorites_example :
    contains
      (merge_prefs_list "favoriteOrder" ("c1" ∷ "c3" ∷ []) ("c1" ∷ []) ("c1" ∷ "c2" ∷ []))
      "c3"
    ≡ true
unfolding prefs_value_equal decide Json-discrete unique_ids
contains-merge_favorites_example =
    contains-merge_favorites ("c1" ∷ "c3" ∷ []) ("c1" ∷ []) ("c1" ∷ "c2" ∷ []) "c3"

is_before-merge_prefs_list_example :
    is_before "c3" "c2"
      (merge_prefs_list "favoriteOrder" ("c1" ∷ "c3" ∷ []) ("c1" ∷ []) ("c1" ∷ "c2" ∷ []))
    ≡ true
unfolding unique_ids
is_before-merge_prefs_list_example =
    is_before-merge_prefs_list ("c1" ∷ "c3" ∷ []) ("c1" ∷ []) ("c1" ∷ "c2" ∷ []) "c3" "c2"
      (distinct "c3" "" refl) (distinct "c2" "" refl) (distinct "c3" "c2" refl) refl refl

recent_lists_merge :
    (merged : List String) × (merge_prefs_list "recentSearches" ("a" ∷ []) [] ("b" ∷ [])
      ≡ take 12 merged)
    × ((v : String)
        → contains merged v ≡ (
            not (v == "")
            && merged_or_restored (contains ("a" ∷ []) v) (contains [] v) (contains ("b" ∷ []) v)))
unfolding prefs_union_list_keys
recent_lists_merge = merge_recent_lem "recentSearches" ("a" ∷ []) [] ("b" ∷ []) 11 refl

two_lists_merged : IsDistinct (merge_prefs_list "recentChannels" ("a" ∷ "b" ∷ []) [] ("b" ∷ []))
two_lists_merged = merge_prefs_list-IsDistinct "recentChannels" ("a" ∷ "b" ∷ []) [] ("b" ∷ [])

two_searches_fit : length (merge_prefs_list "recentSearches" ("a" ∷ "b" ∷ []) [] ("b" ∷ [])) ≤ 12
unfolding prefs_union_list_keys
two_searches_fit =
    length-merge_prefs_list "recentSearches" ("a" ∷ "b" ∷ []) [] ("b" ∷ []) 12 refl (omega arith)
