-- ===== src/Prefs/Diff/Merge.antt =====
-- `applyPrefsDiff` as a whole: every key, every entry of a map, the order of favourites, and two
-- tabs that save one after the other.
use silo_plugin_dispatcharr.Base.{
  String, ◌≡◌, refl, sym, ap, ◌∙◌, ◌≢◌, inl, inr, Bool, true, Option, none, some, List, [], ◌∷◌,
  ◌++◌, arith, Bool-cases, filter, All, string_eq, nat_eq, beq_refl, contains,
}
use mathlib.Core.Path.{subst}
use mathlib.Core.Bool.{false≢true}
use silo_plugin_dispatcharr.Ids.{unique_ids, unique_ids-IsDistinct}
use silo_plugin_dispatcharr.Prefs.Json.{
  str, num, bool, Json, null, arr, obj, Fields, to_list, of_list, get, keys, get-put,
  prefs_value_equal, prefs_value_equal_self, json_eq,
}
use silo_plugin_dispatcharr.Prefs.Diff.{
  items, fields_of, is_map_entry, diff_key, diff_keys, prune_favorite_order, is_favorite,
  apply_prefs_diff, prune_with, prefs_map_keys,
}
use silo_plugin_dispatcharr.Prefs.Diff.Laws.{
  get-foldl, get-diff_key, get-diff_map, absent_equal, merged_value, merged_entry,
}

-- Every key of the preferences before the order of favourites is pruned.
pub get-diff_keys :
    (remote baseline local : Fields) (k : String)
    → k ≢ ""
    → get k (diff_keys remote baseline local)
      ≡ merged_value k (get k baseline) (get k local) (get k remote)
unfolding diff_keys
get-diff_keys remote baseline local k ne =
    let ks = unique_ids (keys baseline ++ keys local) in
    let whole =
      get-foldl (diff_key baseline local)
        (λ key. merged_value key (get key baseline) (get key local)) (get-diff_key baseline local)
        remote ks k (unique_ids-IsDistinct (keys baseline ++ keys local)) in
    elim (Bool-cases (contains ks k)) [
      | inl e ↦ whole ∙ rw e
      | inr e ↦ whole ∙ rw (e, absent_equal k baseline local e ne)
    ]

get-prune_with :
    (favorites order : Option Json) (f : Fields) (k : String)
    → k ≢ "favoriteOrder"
    → get k (prune_with favorites order f) ≡ get k f
unfolding prune_with
get-prune_with (some favorites) (some (arr xs)) f k ne = ground (
  arith,
  get-put "favoriteOrder" k (arr (of_list (filter (is_favorite favorites) (to_list xs)))) f,
  string_eq.beq_iff "favoriteOrder" k,
)
get-prune_with _ _ f k ne = refl

-- Every key of the merged preferences but the empty one and the order of favourites is a function
-- of the three values of that key: the stored value where this tab did not change it, else the
-- merge of the map or of the list of identifiers, or the value of this tab.
pub get-apply_prefs_diff :
    (remote baseline local : Fields) (k : String)
    → k ≢ ""
    → k ≢ "favoriteOrder"
    → get k (apply_prefs_diff remote baseline local)
      ≡ merged_value k (get k baseline) (get k local) (get k remote)
unfolding apply_prefs_diff prune_favorite_order
get-apply_prefs_diff remote baseline local k ne no_order =
    let f = diff_keys remote baseline local in
    get-prune_with (get "favorites" f) (get "favoriteOrder" f) f k no_order
    ∙ get-diff_keys remote baseline local k ne

-- An entry that this tab did not change keeps the stored value.
pub apply_prefs_diff_unchanged :
    (remote baseline local : Fields) (k : String)
    → k ≢ ""
    → k ≢ "favoriteOrder"
    → prefs_value_equal (get k local) (get k baseline) ≡ true
    → get k (apply_prefs_diff remote baseline local) ≡ get k remote
apply_prefs_diff_unchanged remote baseline local k ne no_order same =
    get-apply_prefs_diff remote baseline local k ne no_order ∙ rw same

-- Equal values are one value, or both missing.
plain_of_equal :
    (f : Fields) (old : Option Json)
    → prefs_value_equal (some (obj f)) old ≡ true
    → old ≡ some (obj f)
unfolding prefs_value_equal
plain_of_equal f none h = cc ((json_eq.beq_iff (obj f) null).0 h)
plain_of_equal f (some v) h = cc ((json_eq.beq_iff (obj f) v).0 h)

get-merged_value :
    (k sub : String) (fields : Fields) (old stored : Option Json)
    → sub ≢ ""
    → contains prefs_map_keys k ≡ true
    → get sub (fields_of (merged_value k old (some (obj fields)) stored))
      ≡ merged_entry (get sub (fields_of old)) (get sub fields) (get sub (fields_of stored))
unfolding is_map_entry
get-merged_value k sub fields old stored sub_ne is_map =
    elim (Bool-cases (prefs_value_equal (some (obj fields)) old)) [
      | inl e ↦
          rw (e, plain_of_equal fields old e) (sym (rw (prefs_value_equal_self (get sub fields))))
      | inr e ↦ rw (e, is_map) (get-diff_map (fields_of old) fields (fields_of stored) sub sub_ne)
    ]

map_key_ne_order : (k : String) → contains prefs_map_keys k ≡ true → k ≢ "favoriteOrder"
map_key_ne_order k h e = false≢true (subst (λ j. contains prefs_map_keys j ≡ true) e h)

-- A map of the preferences is merged entry by entry.
pub get-apply_map_entry :
    (remote baseline local fields : Fields) (k sub : String)
    → k ≢ ""
    → sub ≢ ""
    → contains prefs_map_keys k ≡ true
    → get k local ≡ some (obj fields)
    → get sub (fields_of (get k (apply_prefs_diff remote baseline local)))
      ≡ merged_entry
          (get sub (fields_of (get k baseline)))
          (get sub fields)
          (get sub (fields_of (get k remote)))
get-apply_map_entry remote baseline local fields k sub ne sub_ne is_map e =
    rw (get-apply_prefs_diff remote baseline local k ne (map_key_ne_order k is_map), e)
      (get-merged_value k sub fields (get k baseline) (get k remote) sub_ne is_map)

to_list-of_list : (xs : List Json) → to_list (of_list xs) ≡ xs
to_list-of_list [] = refl
to_list-of_list (x ∷ xs) = ap (◌∷◌ x) (to_list-of_list xs)

All-filter_self : (p : Json → Bool) (xs : List Json) → All (λ v. p v ≡ true) (filter p xs)
All-filter_self p [] = tt
All-filter_self p (x ∷ xs) = ground (arith, All-filter_self p xs)

items-prune_with :
    (favorites : Fields) (order : Option Json) (f : Fields)
    → get "favoriteOrder" f ≡ order
    → All
        (λ id. is_favorite (obj favorites) id ≡ true)
        (items (get "favoriteOrder" (prune_with (some (obj favorites)) order f)))
unfolding prune_with
items-prune_with favorites (some (arr xs)) f e =
    let kept = filter (is_favorite (obj favorites)) (to_list xs) in
    rw
      (
        get-put "favoriteOrder" "favoriteOrder" (arr (of_list kept)) f,
        beq_refl {A = String} "favoriteOrder",
        to_list-of_list,
      )
      (All-filter_self (is_favorite (obj favorites)) (to_list xs))
items-prune_with favorites none f e = rw e tt
items-prune_with favorites (some null) f e = rw e tt
items-prune_with favorites (some (bool b)) f e = rw e tt
items-prune_with favorites (some (num t)) f e = rw e tt
items-prune_with favorites (some (str t)) f e = rw e tt
items-prune_with favorites (some (obj g)) f e = rw e tt

favorites_ne_order : ◌≢◌ {A = String} "favorites" "favoriteOrder"
favorites_ne_order = ground (arith, string_eq.beq_iff "favorites" "favoriteOrder")

-- Whatever is merged, when the result has favourites that are an object, its order of favourites
-- lists favourites only.
pub apply_prefs_diff_order :
    (remote baseline local favorites : Fields)
    → get "favorites" (apply_prefs_diff remote baseline local) ≡ some (obj favorites)
    → All
        (λ id. is_favorite (obj favorites) id ≡ true)
        (items (get "favoriteOrder" (apply_prefs_diff remote baseline local)))
unfolding apply_prefs_diff prune_favorite_order
apply_prefs_diff_order remote baseline local favorites e =
    let f = diff_keys remote baseline local in
    let order = get "favoriteOrder" f in
    let kept = get-prune_with (get "favorites" f) order f "favorites" favorites_ne_order in
    rw (sym kept ∙ e) (items-prune_with favorites order f refl)
