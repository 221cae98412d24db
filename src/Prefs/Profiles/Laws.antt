-- ===== src/Prefs/Profiles/Laws.antt =====
-- A profile reads back what was saved for it, and a save for it leaves every other profile alone.
use mathlib.Core.Path.{subst}
use mathlib.Core.Bool.{false≢true}
use silo_plugin_dispatcharr.Base.{
  String, ◌≡◌, refl, sym, ◌∙◌, ◌≢◌, inl, inr, Bool, true, false, ◌||◌, not, Option, none, some,
  arith, if◌then◌else◌, Option-cases, ◌==◌, nat_eq, string_eq, beq_refl, beq_of_ne, contains,
  IsDistinct,
}
use silo_plugin_dispatcharr.Prefs.Json.{
  Json, null, obj, Fields, get, put, remove, get-put, get-remove,
}
use silo_plugin_dispatcharr.Prefs.Diff.{prefs_plain_object, fields_of}
use silo_plugin_dispatcharr.Prefs.Diff.Laws.{get-foldl, snapshot_entry, get-write_entry}
use silo_plugin_dispatcharr.Prefs.Profiles.{
  profile_scoped_pref_keys, prefs_profile_section, copy_scoped, copy_entry, section_of,
  profile_view, merge_profile_view, or_empty,
}

unfoldable pub is_scoped : String → Bool
is_scoped k = contains profile_scoped_pref_keys k

get-copy_entry :
    (source f : Fields) (key k : String)
    → get k (copy_entry source f key)
      ≡ (if key == k then snapshot_entry (get k source) else get k f)
unfolding copy_entry
get-copy_entry source f key k =
    ground (arith, get-write_entry (get key source) key k f, string_eq.beq_iff key k)

scoped_IsDistinct : IsDistinct profile_scoped_pref_keys
scoped_IsDistinct = (refl, (refl, (refl, (refl, tt))))

get-copy_scoped :
    (source target : Fields) (k : String)
    → get k (copy_scoped source target)
      ≡ (if is_scoped k then snapshot_entry (get k source) else get k target)
unfolding copy_scoped is_scoped
get-copy_scoped source target k =
    get-foldl (copy_entry source) (λ key _. snapshot_entry (get key source)) (get-copy_entry source)
      target profile_scoped_pref_keys k scoped_IsDistinct

profiles_not_scoped : is_scoped "profiles" ≡ false
unfolding is_scoped
profiles_not_scoped = refl

snapshot_twice : (o : Option Json) → snapshot_entry (snapshot_entry o) ≡ snapshot_entry o
snapshot_twice none = refl
snapshot_twice (some null) = refl
snapshot_twice _ = refl

-- The stored map of sections, without the one for `profile_id`.
fields_of_plain :
    (stored : Option Json) (bare : Fields)
    → fields_of (
        get "profiles" (
          if prefs_plain_object stored
          then put "profiles" (obj (fields_of stored)) (remove "profiles" bare)
          else remove "profiles" bare))
      ≡ fields_of stored
fields_of_plain stored bare = ground (
  arith,
  get-put "profiles" "profiles" (obj (fields_of stored)) (remove "profiles" bare),
  get-remove "profiles" "profiles" bare,
  beq_refl {A = String} "profiles",
)

section_plain :
    (b : Bool) (other : String) (stored : Option Json)
    → (if b || false then none else section_of (get other (fields_of stored))) ≡ (
        if b || not (prefs_plain_object stored)
        then none
        else section_of (get other (fields_of stored)))
unfolding section_of get
section_plain b other stored = ground arith

scoped_ne : (k : String) → is_scoped k ≡ true → k ≢ "profiles"
scoped_ne k h e = false≢true (sym profiles_not_scoped ∙ subst (λ j. is_scoped j ≡ true) e h)

module _ (remote merged : Fields) (profile_id : String) (ne : profile_id ≢ "") where
  new_section : Fields
  new_section = copy_scoped merged (or_empty (prefs_profile_section remote profile_id))

  not_empty : (profile_id == "") ≡ false
  not_empty = beq_of_ne profile_id "" ne

  get-profiles :
      get "profiles" (merge_profile_view remote merged profile_id)
      ≡ some (obj (put profile_id (obj new_section) (fields_of (get "profiles" remote))))
  unfolding merge_profile_view new_section
  get-profiles = rw (not_empty, get-put, get-copy_scoped, profiles_not_scoped, fields_of_plain) refl

  get-merge_profile_view :
      (k : String)
      → k ≢ "profiles"
      → get k (merge_profile_view remote merged profile_id)
        ≡ (if is_scoped k then snapshot_entry (get k remote) else get k merged)
  unfolding merge_profile_view
  get-merge_profile_view k k_ne =
      rw (not_empty, get-put, beq_of_ne "profiles" k (λ h. k_ne (sym h)), get-copy_scoped)
        (ground (
          arith,
          get-put "profiles" k (obj (fields_of (get "profiles" remote))) (remove "profiles" merged),
          get-remove "profiles" k merged,
          beq_of_ne "profiles" k (λ h. k_ne (sym h)),
        ))

  section_self :
      prefs_profile_section (merge_profile_view remote merged profile_id) profile_id
      ≡ some new_section
  unfolding prefs_profile_section section_of
  section_self = rw (not_empty, get-profiles, get-put, beq_refl {A = String} profile_id) refl

  section_other :
      (other : String)
      → other ≢ profile_id
      → prefs_profile_section (merge_profile_view remote merged profile_id) other
        ≡ prefs_profile_section remote other
  unfolding prefs_profile_section
  section_other other other_ne =
      rw (get-profiles, get-put, beq_of_ne profile_id other (λ h. other_ne (sym h)))
        (section_plain (other == "") other (get "profiles" remote))

  -- What is saved for a profile is what that profile sees next: for each key but the map of the
  -- profiles, the view of the merged preferences has the merged value (null read as an empty
  -- object for the keys that are kept for each profile).
  pub get-view-merge :
      (k : String)
      → k ≢ "profiles"
      → get k (profile_view (merge_profile_view remote merged profile_id) profile_id)
        ≡ (if is_scoped k then snapshot_entry (get k merged) else get k merged)
  unfolding profile_view new_section
  get-view-merge k k_ne =
      rw (section_self, profile_view, get-copy_scoped)
        (ground (
          arith,
          get-copy_scoped merged (or_empty (prefs_profile_section remote profile_id)) k,
          snapshot_twice (get k merged),
          get-remove "profiles" k (merge_profile_view remote merged profile_id),
          get-merge_profile_view k k_ne,
          beq_of_ne "profiles" k (λ h. k_ne (sym h)),
        ))

  bare_other :
      (k : String)
      → is_scoped k ≡ true
      → snapshot_entry (get k (remove "profiles" (merge_profile_view remote merged profile_id)))
        ≡ snapshot_entry (get k (remove "profiles" remote))
  bare_other k scoped = ground (
    arith,
    get-remove "profiles" k (merge_profile_view remote merged profile_id),
    get-remove "profiles" k remote,
    get-merge_profile_view k (scoped_ne k scoped),
    snapshot_twice (get k remote),
  )

  -- Every other profile, and a viewer without a profile, sees the entries that are kept for each
  -- profile as before the save.
  pub get-view-merge_other :
      (other k : String)
      → other ≢ profile_id
      → is_scoped k ≡ true
      → snapshot_entry (get k (profile_view (merge_profile_view remote merged profile_id) other))
        ≡ snapshot_entry (get k (profile_view remote other))
  unfolding profile_view
  get-view-merge_other other k other_ne scoped =
      elim (Option-cases (prefs_profile_section remote other)) [
        | inl e ↦
            rw (section_other other other_ne, profile_view)
              (rw (e, profile_view) (bare_other k scoped))
        | inr (section, e) ↦
            rw (section_other other other_ne, profile_view)
              (rw (e, profile_view) (simp (get-copy_scoped, scoped)))
      ]

-- A viewer without a profile reads back what was saved, at the top level.
pub get-view-merge_no_profile :
    (remote merged : Fields) (k : String)
    → k ≢ "profiles"
    → get k (profile_view (merge_profile_view remote merged "") "") ≡ get k merged
unfolding profile_view merge_profile_view prefs_profile_section
get-view-merge_no_profile remote merged k k_ne =
    let stored = get "profiles" remote in
    let bare = remove "profiles" merged in
    let whole = put "profiles" (obj (fields_of stored)) bare in
    ground (
      arith,
      get-remove "profiles" k (if prefs_plain_object stored then whole else bare),
      get-put "profiles" k (obj (fields_of stored)) bare,
      get-remove "profiles" k merged,
      beq_of_ne "profiles" k (λ h. k_ne (sym h)),
    )
