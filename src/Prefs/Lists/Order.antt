-- ===== src/Prefs/Lists/Order.antt =====
-- What `mergePrefsList` returns for each of its keys: the identifiers, their order, their number.
use silo_plugin_dispatcharr.Base.{
  ℕ, zero, suc, ◌≤◌, ◌<◌, String, ◌≡◌, inl, inr, Bool, true, false, ◌&&◌, not, Option, none, some,
  List, arith, if◌then◌else◌, Bool-cases, length, take, length-take, string_eq, nat_eq, ◌==◌,
  contains, IsDistinct, take-IsDistinct,
}
use silo_plugin_dispatcharr.Ids.{unique_ids, contains-unique_ids, unique_ids-IsDistinct}
use silo_plugin_dispatcharr.Prefs.Lists.{
  merge_prefs_list, merge_ids, same_order, prefs_union_list_keys, cut,
}
use silo_plugin_dispatcharr.Prefs.Lists.Laws.{
  merged_or_restored, merged_both, contains-merge_recent, contains-merge_reordered,
  contains-merge_ordered,
}

merge_ids-IsDistinct :
    (b : Bool) (remote baseline local : List String)
    → IsDistinct (merge_ids b remote baseline local)
unfolding merge_ids
merge_ids-IsDistinct false remote baseline local = unique_ids-IsDistinct _
merge_ids-IsDistinct true remote baseline local = elim (Bool-cases (same_order baseline local)) [
  | inl e ↦ rw e (unique_ids-IsDistinct _)
  | inr e ↦ rw e (unique_ids-IsDistinct _)
]

cut-IsDistinct : (o : Option ℕ) (xs : List String) → IsDistinct xs → IsDistinct (cut o xs)
cut-IsDistinct none xs h = h
cut-IsDistinct (some zero) xs h = h
cut-IsDistinct (some (suc n)) xs h = take-IsDistinct (suc n) xs h

-- A merged list of identifiers has no identifier twice, whatever the three lists hold.
pub merge_prefs_list-IsDistinct :
    (key : String) (remote baseline local : List String)
    → IsDistinct (merge_prefs_list key remote baseline local)
unfolding merge_prefs_list
merge_prefs_list-IsDistinct key remote baseline local =
    cut-IsDistinct (prefs_union_list_keys key) _
      (merge_ids-IsDistinct _ (unique_ids remote) (unique_ids baseline) (unique_ids local))

-- A merged list stays within the limit of its key, for a key with a limit above zero.
pub length-merge_prefs_list :
    (key : String) (remote baseline local : List String) (limit : ℕ)
    → prefs_union_list_keys key ≡ some limit
    → 0 < limit
    → length (merge_prefs_list key remote baseline local) ≤ limit
unfolding merge_prefs_list
length-merge_prefs_list key remote baseline local zero e h = absurd (omega arith)
length-merge_prefs_list key remote baseline local (suc n) e h = rw e (
    omega (
      arith,
      length-take (suc n) (
          merge_ids (key == "favoriteOrder") (unique_ids remote) (unique_ids baseline)
            (unique_ids local)),
    ))

-- Which identifiers the merged order of favourites has: those that are not empty and that a
-- three-way merge of membership keeps. When this tab did not reorder, a removal on either side
-- removes; when it did, what this tab lists is put back.
pub contains-merge_favorites :
    (remote baseline local : List String) (v : String)
    → contains (merge_prefs_list "favoriteOrder" remote baseline local) v ≡ (
        not (v == "")
        && (if same_order (unique_ids baseline) (unique_ids local)
            then merged_both (contains remote v) (contains baseline v) (contains local v)
            else merged_or_restored (contains remote v) (contains baseline v) (contains local v)))
unfolding merge_prefs_list
contains-merge_favorites remote baseline local v =
    let r = unique_ids remote in
    let b = unique_ids baseline in
    let l = unique_ids local in
    ground (
      arith,
      contains-merge_reordered r b l v,
      contains-merge_ordered r b l v,
      contains-unique_ids remote v,
      contains-unique_ids baseline v,
      contains-unique_ids local v,
    )

-- A list with a limit (recent searches, recent channels) is the front, up to the limit, of a list
-- with exactly the identifiers that a three-way merge of membership keeps, in which what this tab
-- lists is put back.
pub merge_recent_lem :
    (key : String) (remote baseline local : List String) (limit : ℕ)
    → prefs_union_list_keys key ≡ some (suc limit)
    → (merged : List String) × (merge_prefs_list key remote baseline local
        ≡ take (suc limit) merged)
      × ((v : String)
          → contains merged v ≡ (
              not (v == "")
              && merged_or_restored (contains remote v) (contains baseline v) (contains local v)))
unfolding merge_prefs_list prefs_union_list_keys
merge_recent_lem key remote baseline local limit e =
    let r = unique_ids remote in
    let b = unique_ids baseline in
    let l = unique_ids local in
    (
      merge_ids false r b l,
      ground arith,
      λ v. ground (
        arith,
        contains-merge_recent r b l v,
        contains-unique_ids remote v,
        contains-unique_ids baseline v,
        contains-unique_ids local v,
      ),
    )
