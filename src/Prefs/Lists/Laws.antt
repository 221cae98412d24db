-- ===== src/Prefs/Lists/Laws.antt =====
-- What a merged list holds: a three-way merge of membership.
use silo_plugin_dispatcharr.Base.{
  String, ◌≡◌, Bool, true, false, ◌&&◌, ◌||◌, not, List, ◌++◌, arith, if◌then◌else◌, ◌==◌, nat_eq,
  string_eq, contains, contains-append, contains-filter,
}
use silo_plugin_dispatcharr.Ids.{contains-unique_ids}
use silo_plugin_dispatcharr.Prefs.Lists.{merge_ids, added_ids, kept_ids, shared_ids, same_order}

-- A three-way merge of one identifier, in which what this tab keeps is put back.
abbrev pub merged_or_restored : Bool → Bool → Bool → Bool
merged_or_restored remote baseline local = local || (remote && not baseline)

-- A three-way merge of one identifier, in which either side removes.
abbrev pub merged_both : Bool → Bool → Bool → Bool
merged_both remote baseline local = if baseline then remote && local else remote || local

module _ (remote baseline local : List String) (v : String) where
  contains-added :
      contains (added_ids baseline local) v ≡ (contains local v && not (contains baseline v))
  contains-added = contains-filter (λ x. not (contains baseline x)) local v

  contains-kept :
      contains (kept_ids remote baseline local) v
      ≡ (contains remote v && (not (contains baseline v) || contains local v))
  contains-kept = contains-filter (λ x. not (contains baseline x) || contains local x) remote v

  contains-shared :
      contains (shared_ids local baseline) v ≡ (contains local v && contains baseline v)
  contains-shared = contains-filter (contains baseline) local v

  pub contains-merge_recent : contains (merge_ids false remote baseline local) v ≡ (
      not (v == "")
      && merged_or_restored (contains remote v) (contains baseline v) (contains local v))
  unfolding merge_ids
  contains-merge_recent = ground (
    arith,
    contains-unique_ids
        (added_ids baseline local ++ (shared_ids local baseline ++ kept_ids remote baseline local))
        v,
    contains-append (added_ids baseline local)
        (shared_ids local baseline ++ kept_ids remote baseline local) v,
    contains-append (shared_ids local baseline) (kept_ids remote baseline local) v,
    contains-added,
    contains-kept,
    contains-shared,
  )

  pub contains-merge_reordered :
      same_order baseline local ≡ false
      → contains (merge_ids true remote baseline local) v ≡ (
          not (v == "")
          && merged_or_restored (contains remote v) (contains baseline v) (contains local v))
  unfolding merge_ids
  contains-merge_reordered h = ground (
    arith,
    contains-unique_ids (local ++ kept_ids remote baseline local) v,
    contains-append local (kept_ids remote baseline local) v,
    contains-kept,
  )

  pub contains-merge_ordered :
      same_order baseline local ≡ true
      → contains (merge_ids true remote baseline local) v ≡ (
          not (v == "") && merged_both (contains remote v) (contains baseline v) (contains local v))
  unfolding merge_ids
  contains-merge_ordered h = ground (
    arith,
    contains-unique_ids (kept_ids remote baseline local ++ added_ids baseline local) v,
    contains-append (kept_ids remote baseline local) (added_ids baseline local) v,
    contains-kept,
    contains-added,
  )
