-- ===== src/Prefs/Lists.antt =====
-- internal/plugin/ui/prefs.js, `mergePrefsList`: this tab's changes to an ordered list of
-- identifiers, applied to the stored list.
pub mod Laws
pub mod Order
pub mod Before
use silo_plugin_dispatcharr.Base.{
  ℕ, zero, suc, ◌+◌, ◌-◌, ◌*◌, ◌/◌, ◌%◌, ◌≤◌, ◌<◌, min, max, String, ◌≡◌, refl, sym, ap, ◌∙◌, ◌≢◌,
  ◌↔◌, ◌⊎◌, inl, inr, Bool, true, false, ◌&&◌, ◌||◌, not, Option, none, some, List, [], ◌∷◌, ◌++◌,
  map, foldl, arith, ltb, leb, nat_beq, if◌then◌else◌, ltb→lt, lt→ltb, leb→le, le→leb, nat_beq_iff,
  Bool-cases, Option-cases, length, get_elem?, take, drop, filter, take_last, length-append,
  length-take, length-drop, length-take_last, length-filter-le, All, All-append, All-take, All-drop,
  All-filter, filter-ext, Eq, ◌==◌, nat_eq, string_eq, beq_refl, beq_of_ne, beq_sym, contains,
  IsDistinct, contains-append, contains-filter, filter-IsDistinct, contains-take-false,
  take-IsDistinct, All-contains,
}
use silo_plugin_dispatcharr.Ids.{unique_ids}
use silo_plugin_dispatcharr.Prefs.Json.{arr, of_strings, prefs_value_equal}

-- The keys that hold such lists, with the length that a list is cut to; 0 is no limit.
unfoldable pub prefs_union_list_keys : String → Option ℕ
prefs_union_list_keys key =
    if key == "favoriteOrder"
    then some 0
    else if key == "recentSearches"
    then some 12
    else if key == "recentChannels"
    then some 24
    else none

abbrev pub cut : Option ℕ → List String → List String
cut (some (suc n)) merged = take (suc n) merged
cut _ merged = merged

-- The parts of the three lists: identifiers that this tab added, stored ones that it did not
-- remove, and the ones common to this tab and its baseline, in either order.
abbrev pub added_ids : List String → List String → List String
added_ids baseline local = filter (λ v. not (contains baseline v)) local

abbrev pub kept_ids : List String → List String → List String → List String
kept_ids remote baseline local = filter (λ v. not (contains baseline v) || contains local v) remote

abbrev pub shared_ids : List String → List String → List String
shared_ids xs ys = filter (contains ys) xs

-- This tab did not change the order of what it shares with its baseline.
abbrev pub same_order : List String → List String → Bool
same_order baseline local =
    prefs_value_equal (some (arr (of_strings (shared_ids local baseline))))
      (some (arr (of_strings (shared_ids baseline local))))

-- The merge of three lists that `uniqueIDs` has passed.
unfoldable pub merge_ids : Bool → List String → List String → List String → List String
merge_ids favorite_order remote baseline local =
    let added = added_ids baseline local in
    let kept = kept_ids remote baseline local in
    if not favorite_order
    then unique_ids (added ++ (shared_ids local baseline ++ kept))
    else if not (same_order baseline local)
    then unique_ids (local ++ kept)
    else unique_ids (kept ++ added)

unfoldable pub merge_prefs_list : String → List String → List String → List String → List String
unfolding merge_ids prefs_union_list_keys
merge_prefs_list key remote baseline local = cut (prefs_union_list_keys key) (
    merge_ids (key == "favoriteOrder") (unique_ids remote) (unique_ids baseline) (unique_ids local))
