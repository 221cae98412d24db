-- ===== src/Prefs/Diff/Laws.antt =====
-- What `applyPrefsDiff` leaves under each key: a three-way merge, key by key.
use silo_plugin_dispatcharr.Base.{
  String, ◌≡◌, refl, ◌≢◌, inl, inr, true, false, Option, none, some, List, [], ◌∷◌, ◌++◌, foldl,
  arith, if◌then◌else◌, Bool-cases, ◌==◌, nat_eq, string_eq, beq_refl, contains, IsDistinct,
  contains-append,
}
use mathlib.Core.Path.{subst}
use silo_plugin_dispatcharr.Ids.{unique_ids, contains-unique_ids, unique_ids-IsDistinct}
use silo_plugin_dispatcharr.Prefs.Json.{
  Json, arr, obj, Fields, of_strings, get, keys, get-put, get-remove, get-absent, prefs_value_equal,
  prefs_value_equal-none,
}
use silo_plugin_dispatcharr.Prefs.Lists.{merge_prefs_list}
use silo_plugin_dispatcharr.Prefs.Diff.{
  prefs_snapshot, fields_of, ids, write_entry, is_map_entry, is_list_entry, diff_sub_key, diff_map,
  diff_key,
}

-- A loop over distinct keys whose step rewrites the entry of its key alone.
module _ (step : Fields → String → Fields) (value : String → Option Json → Option Json)
    (step_lem : (f : Fields) (key k : String)
      → get k (step f key) ≡ (if key == k then value k (get k f) else get k f)) where
  pub get-foldl :
      (f : Fields) (ks : List String) (k : String)
      → IsDistinct ks
      → get k (foldl step f ks) ≡ (if contains ks k then value k (get k f) else get k f)
  get-foldl f [] k d = refl
  get-foldl f (key ∷ ks) k d =
      ground (arith, get-foldl (step f key) ks k d.1, step_lem f key k, string_eq.beq_iff key k)

-- The value of a changed entry.
abbrev pub snapshot_entry : Option Json → Option Json
snapshot_entry none = none
snapshot_entry (some v) = some (prefs_snapshot v)

-- An entry that this tab changed has this tab's value, and any other the stored one.
abbrev pub merged_entry : Option Json → Option Json → Option Json → Option Json
merged_entry old new stored = if prefs_value_equal new old then stored else snapshot_entry new

pub get-write_entry :
    (new : Option Json) (key k : String) (f : Fields)
    → get k (write_entry new key f) ≡ (if key == k then snapshot_entry new else get k f)
get-write_entry none key k f = get-remove key k f
get-write_entry (some v) key k f = get-put key k (prefs_snapshot v) f

get-diff_sub_key :
    (before local_map f : Fields) (key k : String)
    → get k (diff_sub_key before local_map f key)
      ≡ (if key == k then merged_entry (get k before) (get k local_map) (get k f) else get k f)
unfolding diff_sub_key
get-diff_sub_key before local_map f key k =
    ground (arith, get-write_entry (get key local_map) key k f, string_eq.beq_iff key k)

-- A key of neither object changes nothing.
pub absent_equal :
    (k : String) (baseline local : Fields)
    → contains (unique_ids (keys baseline ++ keys local)) k ≡ false
    → k ≢ ""
    → prefs_value_equal (get k local) (get k baseline) ≡ true
absent_equal k baseline local h ne = ground (
  arith,
  contains-unique_ids (keys baseline ++ keys local) k,
  contains-append (keys baseline) (keys local) k,
  get-absent k baseline,
  get-absent k local,
  prefs_value_equal-none,
  string_eq.beq_iff k "",
)

-- Every entry of a merged map.
pub get-diff_map :
    (before local_map target : Fields) (k : String)
    → k ≢ ""
    → get k (diff_map before local_map target)
      ≡ merged_entry (get k before) (get k local_map) (get k target)
unfolding diff_map
get-diff_map before local_map target k ne =
    let ks = unique_ids (keys before ++ keys local_map) in
    ground (
      arith,
      get-foldl (diff_sub_key before local_map)
          (λ key. merged_entry (get key before) (get key local_map))
          (get-diff_sub_key before local_map) target ks k (unique_ids-IsDistinct _),
      absent_equal k before local_map,
    )

-- The value under one key of the preferences.
abbrev pub merged_value : String → Option Json → Option Json → Option Json → Option Json
merged_value key old new stored =
    if prefs_value_equal new old
    then stored
    else if is_map_entry key new
    then some (obj (diff_map (fields_of old) (fields_of new) (fields_of stored)))
    else if is_list_entry key new
    then some (arr (of_strings (merge_prefs_list key (ids stored) (ids old) (ids new))))
    else snapshot_entry new

module _ (baseline local f : Fields) (key : String) where
  new_map : Fields
  new_map =
      diff_map (fields_of (get key baseline)) (fields_of (get key local)) (fields_of (get key f))

  new_list : Json
  new_list = arr (
      of_strings
        (merge_prefs_list key (ids (get key f)) (ids (get key baseline)) (ids (get key local))))

  get-diff_key_self :
      get key (diff_key baseline local f key)
      ≡ merged_value key (get key baseline) (get key local) (get key f)
  unfolding diff_key new_map new_list
  get-diff_key_self = ground (
    arith,
    beq_refl key,
    get-put key key (obj new_map) f,
    get-put key key new_list f,
    get-write_entry (get key local) key key f,
  )

  get-diff_key_ne :
      (k : String) → (key == k) ≡ false → get k (diff_key baseline local f key) ≡ get k f
  unfolding diff_key new_map new_list
  get-diff_key_ne k ne = ground (
    arith,
    get-put key k (obj new_map) f,
    get-put key k new_list f,
    get-write_entry (get key local) key k f,
  )

pub get-diff_key :
    (baseline local f : Fields) (key k : String)
    → get k (diff_key baseline local f key)
      ≡ (if key == k then merged_value k (get k baseline) (get k local) (get k f) else get k f)
get-diff_key baseline local f key k = elim (Bool-cases (key == k)) [
  | inl e ↦ rw e (
      subst
        (λ j.
          get j (diff_key baseline local f key)
          ≡ merged_value j (get j baseline) (get j local) (get j f))
        ((string_eq.beq_iff key k).0 e) (get-diff_key_self baseline local f key))
  | inr e ↦ rw e (get-diff_key_ne baseline local f key k e)
]
