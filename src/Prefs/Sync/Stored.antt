-- ===== src/Prefs/Sync/Stored.antt =====
-- What one save leaves in the stored preferences.
use silo_plugin_dispatcharr.Base.{
  String, ◌≡◌, refl, sym, ap, ◌≢◌, inl, inr, Bool, true, false, Option, none, some, arith,
  if◌then◌else◌, Bool-cases, ◌==◌, nat_eq, string_eq, contains,
}
use mathlib.Core.Path.{subst}
use mathlib.Core.Bool.{false≢true}
use silo_plugin_dispatcharr.Prefs.Json.{Json, null, obj, Fields, get}
use silo_plugin_dispatcharr.Prefs.Diff.{prefs_map_keys, fields_of}
use silo_plugin_dispatcharr.Prefs.Diff.Laws.{merged_entry, snapshot_entry}
use silo_plugin_dispatcharr.Prefs.Diff.Merge.{get-apply_map_entry}
use silo_plugin_dispatcharr.Prefs.Profiles.{profile_view, merge_profile_view}
use silo_plugin_dispatcharr.Prefs.Profiles.Laws.{
  is_scoped, get-view-merge, get-view-merge_other, get-view-merge_no_profile,
}
use silo_plugin_dispatcharr.Prefs.Sync.{
  Save, Tab, Hooks, merged_view, stored_preferences, finish_save,
}

fields_of-snapshot : (o : Option Json) → fields_of (snapshot_entry o) ≡ fields_of o
fields_of-snapshot none = refl
fields_of-snapshot (some null) = refl
fields_of-snapshot _ = refl

fields_of-if_scoped :
    (b : Bool) (o : Option Json) → fields_of (if b then snapshot_entry o else o) ≡ fields_of o
fields_of-if_scoped true o = fields_of-snapshot o
fields_of-if_scoped false o = refl

-- The saved map of a key, as the profile of the save sees it.
fields_of-view :
    (remote merged : Fields) (p k : String)
    → k ≢ "profiles"
    → fields_of (get k (profile_view (merge_profile_view remote merged p) p))
      ≡ fields_of (get k merged)
fields_of-view remote merged p k ne = elim (Bool-cases (p == "")) [
  | inl e ↦
      subst
        (λ q.
          fields_of (get k (profile_view (merge_profile_view remote merged q) q))
          ≡ fields_of (get k merged))
        (sym ((string_eq.beq_iff p "").0 e))
        (ap fields_of (get-view-merge_no_profile remote merged k ne))
  | inr e ↦
      rw (get-view-merge remote merged p (λ h. ground (arith, string_eq.beq_iff p "")) k ne)
        (fields_of-if_scoped (is_scoped k) (get k merged))
]

map_key_ne_profiles : (k : String) → contains prefs_map_keys k ≡ true → k ≢ "profiles"
map_key_ne_profiles k h e = false≢true (subst (λ j. contains prefs_map_keys j ≡ true) e h)

map_key_ne_empty : (k : String) → contains prefs_map_keys k ≡ true → k ≢ ""
map_key_ne_empty k h e = false≢true (subst (λ j. contains prefs_map_keys j ≡ true) e h)

-- For each of the preferences that are maps, when the tab still has that map, and for each entry
-- with a name that is not empty: after a save the profile of the save sees the three-way merge of
-- that entry. It is the value of this tab where this tab changed it since its baseline, else what
-- was stored.
pub stored_entry :
    (s : Save) (remote fields : Fields) (k sub : String)
    → sub ≢ ""
    → contains prefs_map_keys k ≡ true
    → get k s.local ≡ some (obj fields)
    → get sub (fields_of (get k (profile_view (stored_preferences s remote) s.for_profile)))
      ≡ merged_entry
          (get sub (fields_of (get k s.base)))
          (get sub fields)
          (get sub (fields_of (get k (profile_view remote s.for_profile))))
unfolding stored_preferences merged_view
stored_entry s remote fields k sub sub_ne is_map e =
    rw (fields_of-view remote (merged_view s remote) s.for_profile k (map_key_ne_profiles k is_map))
      (get-apply_map_entry (profile_view remote s.for_profile) s.base s.local fields k sub
        (map_key_ne_empty k is_map) sub_ne is_map e)

-- A save for a profile leaves the favourites, their order, the hidden groups and the delay that
-- any other profile, or a viewer without a profile, sees as they were (null read as an empty
-- object, as the copy makes it).
pub stored_other :
    (s : Save) (remote : Fields) (other k : String)
    → s.for_profile ≢ ""
    → other ≢ s.for_profile
    → is_scoped k ≡ true
    → snapshot_entry (get k (profile_view (stored_preferences s remote) other))
      ≡ snapshot_entry (get k (profile_view remote other))
unfolding stored_preferences
stored_other s remote other k ne other_ne scoped =
    get-view-merge_other remote (merged_view s remote) s.for_profile ne other k other_ne scoped

-- When a save ends, an entry of a map that the tab has is the three-way merge of what the save
-- took, what the tab shows now, and what the save stored: edits made during the save stay.
pub finish_save_keeps_edits :
    (hooks : Hooks) (s : Save) (merged shown : Fields) (t : Tab) (k sub : String)
    → sub ≢ ""
    → contains prefs_map_keys k ≡ true
    → get k t.preferences ≡ some (obj shown)
    → get sub (fields_of (get k (finish_save hooks s merged t).preferences))
      ≡ merged_entry
          (get sub (fields_of (get k s.local)))
          (get sub shown)
          (get sub (fields_of (get k (hooks.normalize merged))))
unfolding finish_save
finish_save_keeps_edits hooks s merged shown t k sub sub_ne is_map e =
    get-apply_map_entry (hooks.normalize merged) s.local t.preferences shown k sub
      (map_key_ne_empty k is_map) sub_ne is_map e
