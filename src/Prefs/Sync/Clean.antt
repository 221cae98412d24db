-- ===== src/Prefs/Sync/Clean.antt =====
-- A tab with nothing to save shows its baseline.
use silo_plugin_dispatcharr.Base.{
  String, ◌≡◌, refl, sym, ap, ◌∙◌, ◌≢◌, inl, inr, Bool, true, false, ◌&&◌, not, Option, none, some,
  arith, if◌then◌else◌, Bool-cases, Option-cases, ◌==◌, nat_eq, string_eq,
}
use mathlib.Core.Path.{subst}
use mathlib.Core.Bool.{false≢true}
use silo_plugin_dispatcharr.Prefs.Json.{Fields, get, prefs_value_equal_self}
use silo_plugin_dispatcharr.Prefs.Diff.{apply_prefs_diff}
use silo_plugin_dispatcharr.Prefs.Diff.Merge.{apply_prefs_diff_unchanged}
use silo_plugin_dispatcharr.Prefs.Sync.{
  profile_view, finish_reload, discard_pending_prefs_edits, adopt_loaded_prefs, Tab, Hooks, Save,
  save_prefs, finish_save, drop_phantoms, reapply, drop_known_phantom_sports_follows,
  drop_known_from, schedule_prefs_flush, schedule_prefs_load_retry, prefs_profile_switched,
}
use silo_plugin_dispatcharr.Prefs.Sync.System.{
  Flight, writing, System, Flight, free, reading, writing,
}

-- The same values, but for the order of favourites, which is pruned at each merge.
abbrev pub Agrees : Fields → Fields → Type 0
Agrees f g = (k : String) → k ≢ "" → k ≢ "favoriteOrder" → get k f ≡ get k g

-- What the preferences are compared with: what the running save took, or else the baseline.
abbrev pub reference : Flight → Option Fields → Option Fields
reference free baseline = baseline
reference (reading save) baseline = some save.local
reference (writing save remote) baseline = some save.local

abbrev pub Matches : Fields → Option Fields → Type 0
Matches f none = ⊥
Matches f (some g) = Agrees f g

abbrev pub IsCleanTab : Tab → Option Fields → Type 0
IsCleanTab t ref = t.loaded ≡ true → t.dirty ≡ false → Matches t.preferences ref

pub record IsClean (s : System) : Type 0 where
  pub installed : s.tab.installed ≡ true
  pub clean : s.stale ≡ false → IsCleanTab s.tab (reference s.flight s.tab.baseline)

pub save_prefs-dirty : (q : Bool) (t : Tab) → t.installed ≡ true → (save_prefs q t).dirty ≡ true
unfolding save_prefs schedule_prefs_load_retry prefs_profile_switched
save_prefs-dirty q t h = ground arith

pub save_prefs-installed : (q : Bool) (t : Tab) → (save_prefs q t).installed ≡ t.installed
unfolding save_prefs schedule_prefs_load_retry prefs_profile_switched
save_prefs-installed q t = ground arith

-- A merge of what did not change shows the other side.
Agrees-merge :
    (next local shown : Fields)
    → Agrees shown local
    → Agrees (apply_prefs_diff next local shown) next
Agrees-merge next local shown h k ne no_order =
    apply_prefs_diff_unchanged next local shown k ne no_order
      (rw (h k ne no_order) (prefs_value_equal_self (get k local)))

pub finish_save-clean :
    (hooks : Hooks) (save : Save) (merged : Fields) (t : Tab)
    → IsCleanTab t (some save.local)
    → IsCleanTab (finish_save hooks save merged t) (finish_save hooks save merged t).baseline
unfolding finish_save
finish_save-clean hooks save merged t h loaded clean =
    Agrees-merge (hooks.normalize merged) save.local t.preferences (h loaded clean)

drop_known_from-kept :
    (key : String) (f : Fields) → (drop_known_from key f).1 ≡ false → (drop_known_from key f).0 ≡ f
unfolding drop_known_from
drop_known_from-kept key f h = ground arith

drop_known-kept :
    (f : Fields)
    → (drop_known_phantom_sports_follows f).1 ≡ false
    → (drop_known_phantom_sports_follows f).0 ≡ f
unfolding drop_known_phantom_sports_follows
drop_known-kept f h =
    let teams = drop_known_from "sportsFavoriteTeams" f in
    ground (
      arith,
      drop_known_from-kept "sportsFavoriteTeams" f,
      drop_known_from-kept "sportsFavoriteTeamLabels" teams.0,
    )

-- Follows that sports.js drops are saved at once.
drop_phantoms-clean :
    (hooks : Hooks) (t : Tab)
    → t.installed ≡ true
    → (drop_phantoms hooks t).dirty ≡ false
    → drop_phantoms hooks t ≡ t
unfolding drop_phantoms
drop_phantoms-clean hooks t h d = elim (Option-cases (hooks.drop_phantom_follows t.preferences)) [
  | inl e ↦ rw (e, drop_phantoms) refl
  | inr (f, e) ↦ absurd (
      false≢true
        (sym (rw (e, drop_phantoms) at d) ∙ save_prefs-dirty true (record t { preferences = f }) h))
]

reapply-clean :
    (hooks : Hooks) (dirty : Bool) (base local : Option Fields) (dropped : Bool) (t : Tab)
    → (reapply hooks dirty base local dropped t).dirty ≡ false
    → (reapply hooks dirty base local dropped t ≡ t) × (dropped ≡ false)
unfolding reapply schedule_prefs_flush
reapply-clean hooks true (some base) (some local) dropped t h = cc
reapply-clean hooks _ _ _ dropped t h = ground arith

-- The tab that a load leaves, before the follows that sports.js drops.
adopted_tab : String → Tab → Tab
adopted_tab p t = record t {
  preferences = (drop_known_phantom_sports_follows t.preferences).0;
  loaded = true;
  profile_id = p;
  baseline = some t.preferences;
  retry_timer = false;
}

adopted_clean :
    (p : String) (t : Tab)
    → (drop_known_phantom_sports_follows t.preferences).1 ≡ false
    → IsCleanTab (adopted_tab p t) (adopted_tab p t).baseline
unfolding adopted_tab
adopted_clean p t h _ _ k _ _ = ap (get k) (drop_known-kept t.preferences h)

loaded_clean :
    (hooks : Hooks) (b : Bool) (base previous : Option Fields) (p : String) (t : Tab)
    → t.installed ≡ true
    → let loaded =
        reapply hooks b base previous
          (drop_known_phantom_sports_follows t.preferences).1
          (drop_phantoms hooks (adopted_tab p t)) in
      IsCleanTab loaded loaded.baseline
unfolding adopted_tab
loaded_clean hooks b base previous p t h l d =
    let (e, dropped) =
      reapply-clean hooks b base previous _ (drop_phantoms hooks (adopted_tab p t)) d in
    let same = drop_phantoms-clean hooks (adopted_tab p t) h (rw e at d) in
    subst (λ u. IsCleanTab u u.baseline) (sym (e ∙ same)) (adopted_clean p t dropped) l d

adopt-clean :
    (hooks : Hooks) (previous : Option Fields) (p : String) (t : Tab)
    → t.installed ≡ true
    → IsCleanTab
        (adopt_loaded_prefs hooks previous p t)
        (adopt_loaded_prefs hooks previous p t).baseline
unfolding adopt_loaded_prefs adopted_tab discard_pending_prefs_edits
adopt-clean hooks previous p t h =
    let switched = t.loaded && not (t.profile_id == p) in
    let kept = if switched then discard_pending_prefs_edits t else t in
    loaded_clean hooks kept.dirty kept.baseline previous p kept (ground arith)

reapply-installed :
    (hooks : Hooks) (b : Bool) (base local : Option Fields) (dropped : Bool) (t : Tab)
    → (reapply hooks b base local dropped t).installed ≡ t.installed
unfolding reapply schedule_prefs_flush
reapply-installed hooks true (some base) (some local) dropped t = refl
reapply-installed hooks _ _ _ dropped t = ground arith

drop_phantoms-installed :
    (hooks : Hooks) (t : Tab) → (drop_phantoms hooks t).installed ≡ t.installed
unfolding drop_phantoms
drop_phantoms-installed hooks t = elim (Option-cases (hooks.drop_phantom_follows t.preferences)) [
  | inl e ↦ rw (e, drop_phantoms) refl
  | inr (f, e) ↦ rw (e, drop_phantoms) (save_prefs-installed true (record t { preferences = f }))
]

adopt-installed :
    (hooks : Hooks) (previous : Option Fields) (p : String) (t : Tab)
    → (adopt_loaded_prefs hooks previous p t).installed ≡ t.installed
unfolding adopt_loaded_prefs discard_pending_prefs_edits adopted_tab
adopt-installed hooks previous p t =
    let switched = t.loaded && not (t.profile_id == p) in
    let kept = if switched then discard_pending_prefs_edits t else t in
    reapply-installed hooks kept.dirty kept.baseline previous
      (drop_known_phantom_sports_follows kept.preferences).1
      (drop_phantoms hooks (adopted_tab p kept))
    ∙ (drop_phantoms-installed hooks (adopted_tab p kept) ∙ ground arith)

module _ (hooks : Hooks) (remote : Fields) (t : Tab) where
  shown_tab : Tab
  shown_tab =
      let left = if prefs_profile_switched t then discard_pending_prefs_edits t else t in
      record left { preferences = hooks.normalize (profile_view remote t.active_profile_id) }

  shown_tab-installed : shown_tab.installed ≡ t.installed
  unfolding shown_tab discard_pending_prefs_edits
  shown_tab-installed = ground arith

  pub finish_reload-clean :
      t.installed ≡ true
      → IsCleanTab (finish_reload hooks remote t) (finish_reload hooks remote t).baseline
  unfolding finish_reload shown_tab
  finish_reload-clean h =
      elim (Bool-cases (not (prefs_profile_switched t) && t.loaded && t.dirty)) [
        | inl e ↦ rw (e, finish_reload) (λ l d. absurd (ground arith))
        | inr e ↦ rw (e, finish_reload) (adopt-clean hooks _ _ shown_tab (shown_tab-installed ∙ h))
      ]

  pub finish_reload-installed : (finish_reload hooks remote t).installed ≡ t.installed
  unfolding finish_reload shown_tab
  finish_reload-installed =
      elim (Bool-cases (not (prefs_profile_switched t) && t.loaded && t.dirty)) [
        | inl e ↦ rw (e, finish_reload) refl
        | inr e ↦ rw (e, finish_reload) (adopt-installed hooks _ _ shown_tab ∙ shown_tab-installed)
      ]
