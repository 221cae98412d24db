-- ===== src/Prefs/Sync/Races.antt =====
-- Orders of requests: saves one after the other, and two orders in which a saved change is lost.
use silo_plugin_dispatcharr.Base.{
  String, ◌≡◌, refl, ◌∙◌, ◌≢◌, true, false, none, some, [], ◌∷◌, ◌++◌, arith, string_eq, nat_eq,
  contains,
}
use silo_plugin_dispatcharr.Prefs.Json.{obj, Fields, get, prefs_value_equal}
use silo_plugin_dispatcharr.Prefs.Diff.{prefs_map_keys, fields_of}
use silo_plugin_dispatcharr.Prefs.Profiles.{profile_view}
use silo_plugin_dispatcharr.Prefs.Diff.Laws.{snapshot_entry}
use silo_plugin_dispatcharr.Prefs.Sync.System.{
  System, writing, put_done, reload_done, step, run, after_put,
}
use silo_plugin_dispatcharr.Prefs.Sync.Tabs.{
  right, stored_at, stored_after, left_first, right_first, both_read, stored_after-left_first,
  stored_after-right_first, stored_after-both_read,
}
use silo_plugin_dispatcharr.Prefs.Sync.Stored.{stored_entry, finish_save_keeps_edits}
use silo_plugin_dispatcharr.Prefs.Sync.{
  finish_save, merged_view, Save, Tab, Hooks, stored_preferences, finish_reload, adopt_loaded_prefs,
  drop_phantoms, reapply, prefs_profile_switched, drop_known_phantom_sports_follows,
}

module _ (hooks : Hooks) (a b : Tab) (first second : Save) (remote first_map second_map : Fields)
    (k sub : String) where
  module _ (same : second.for_profile ≡ first.for_profile)
      (here_a : a.active_profile_id ≡ first.for_profile)
      (here_b : b.active_profile_id ≡ second.for_profile) (sub_ne : sub ≢ "")
      (is_map : contains prefs_map_keys k ≡ true) (e1 : get k first.local ≡ some (obj first_map))
      (e2 : get k second.local ≡ some (obj second_map))
      (changed : prefs_value_equal (get sub first_map) (get sub (fields_of (get k first.base)))
        ≡ false)
      (untouched : prefs_value_equal (get sub second_map) (get sub (fields_of (get k second.base)))
        ≡ true) where
    stored_first :
        (server : Fields)
        → stored_at (stored_preferences first server) first.for_profile k sub
          ≡ snapshot_entry (get sub first_map)
    stored_first server = stored_entry first server first_map k sub sub_ne is_map e1 ∙ rw changed

    stored_second :
        (server : Fields)
        → stored_at (stored_preferences second server) first.for_profile k sub
          ≡ stored_at server first.for_profile k sub
    stored_second server =
        rw⁻¹ same (stored_entry second server second_map k sub sub_ne is_map e2 ∙ rw untouched)

    -- Two tabs on one profile and the same stored preferences have each begun a save, with
    -- nothing more queued, and nothing else happens meanwhile. An entry, with a name that is not
    -- empty, of a map that both tabs still have was changed by the first tab since its baseline
    -- and left by the second as in its own. When one of the tabs reads the stored preferences and
    -- writes before the other reads, then behind both writes the profile reads the value of the
    -- first tab from what is stored, whichever tab went first.
    pub saves_in_turn :
        (stored_at (stored_after hooks a b first second remote left_first) first.for_profile k sub
          ≡ snapshot_entry (get sub first_map))
        × (stored_at
              (stored_after hooks a b first second remote right_first)
              first.for_profile
              k
              sub
            ≡ snapshot_entry (get sub first_map))
    saves_in_turn = (
      rw (stored_after-left_first hooks a b first second remote here_a here_b)
          (stored_second (stored_preferences first remote) ∙ stored_first remote),
      rw (stored_after-right_first hooks a b first second remote here_a here_b)
          (stored_first (stored_preferences second remote)),
    )

    -- Two tabs on one profile and the same stored preferences have each begun a save, with
    -- nothing more queued, and nothing else happens meanwhile. An entry, with a name that is not
    -- empty, of a map that both tabs still have was changed by the first tab since its baseline
    -- and left by the second as in its own. When both tabs read the stored preferences before
    -- either writes, the profile reads the value of the first tab behind the write of the first,
    -- and behind the write of the second the value that was stored before both: the change is
    -- lost.
    pub overlapping_saves :
        (stored_at (stored_after hooks a b first second remote both_read) first.for_profile k sub
          ≡ snapshot_entry (get sub first_map))
        × (stored_at
              (stored_after hooks a b first second remote (both_read ++ right put_done ∷ []))
              first.for_profile
              k
              sub
            ≡ stored_at remote first.for_profile k sub)
    overlapping_saves =
        let (one, two) = stored_after-both_read hooks a b first second remote here_a here_b in
        (rw one (stored_first remote), rw two (stored_second remote))

-- A tab on its own profile with no pending edits shows what a reload brings.
reloaded :
    (hooks : Hooks) (remote : Fields) (t : Tab)
    → ((f : Fields) → hooks.drop_phantom_follows f ≡ none)
    → t.dirty ≡ false
    → t.profile_id ≡ t.active_profile_id
    → let shown = hooks.normalize (profile_view remote t.active_profile_id) in
      (drop_known_phantom_sports_follows shown).1 ≡ false
      → ((finish_reload hooks remote t).preferences ≡ (drop_known_phantom_sports_follows shown).0)
        × ((finish_reload hooks remote t).dirty ≡ false)
unfolding finish_reload adopt_loaded_prefs drop_phantoms reapply prefs_profile_switched
reloaded hooks remote t no_phantoms clean here no_known =
    let shown = hooks.normalize (profile_view remote t.active_profile_id) in
    ground (
      arith,
      no_phantoms (drop_known_phantom_sports_follows shown).0,
      string_eq.beq_iff t.profile_id t.active_profile_id,
    )

-- When a tab on its own profile has no further edits while its save is being written, and a
-- reload that drops no follows comes back before the write ends, then the write goes through, the
-- tab has nothing to save, and an entry of a map that the reload brought with another value than
-- the saved one shows the value of the reload.
pub reload_during_save :
    (hooks : Hooks) (s : System) (save : Save) (remote old_map : Fields) (k sub : String)
    → s.flight ≡ writing save remote
    → s.tab.dirty ≡ false
    → s.tab.profile_id ≡ s.tab.active_profile_id
    → ((f : Fields) → hooks.drop_phantom_follows f ≡ none)
    → let shown = hooks.normalize (profile_view s.server s.tab.active_profile_id) in
      let s' = run hooks s (reload_done ∷ put_done ∷ []) in
      (drop_known_phantom_sports_follows shown).1 ≡ false
      → sub ≢ ""
      → contains prefs_map_keys k ≡ true
      → get k (drop_known_phantom_sports_follows shown).0 ≡ some (obj old_map)
      → prefs_value_equal (get sub old_map) (get sub (fields_of (get k save.local))) ≡ false
      → (s'.tab.dirty ≡ false)
        × (s'.server ≡ stored_preferences save remote)
        × (get sub (fields_of (get k s'.tab.preferences)) ≡ snapshot_entry (get sub old_map))
unfolding run step after_put
reload_during_save hooks s save remote old_map k sub flying clean here no_phantoms no_known sub_ne
      is_map e differs =
    let t = finish_reload hooks s.server s.tab in
    let (shown_e, clean') = reloaded hooks s.server s.tab no_phantoms clean here no_known in
    let kept =
      finish_save_keeps_edits hooks save (merged_view save remote) old_map t k sub sub_ne is_map
        (rw shown_e e) in
    rw (flying, after_put) (unfold finish_save in clean', refl, kept ∙ rw differs)
