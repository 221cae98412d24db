-- ===== src/Selection/Cached.antt =====
-- The caches of the selection against what they would be computed to.
use mathlib.Core.Path.{subst}
use silo_plugin_dispatcharr.Base.{
  String, ◌≡◌, refl, sym, ap, ◌∙◌, ◌⊎◌, inl, inr, Bool, true, false, ◌&&◌, not, Option, none, some,
  List, arith, if◌then◌else◌, Bool-cases, string_eq, nat_eq, ◌==◌, contains,
}
use silo_plugin_dispatcharr.Selection.State.{
  Selection, Channel, App, selected_ids, has_profile, allowed_channels, selected_profile_map,
  selected_profile_channel_map, channel_matches_profile_selection, load,
}

module _ (trim : String → String) where
  -- The channels that the selection allows, computed.
  abbrev pub allowed_ids : App → Option (List String)
  allowed_ids a = elim (selected_ids trim a) [
    | none ↦ none
    | some selected ↦ some (allowed_channels trim selected a.channels)
  ]

  -- The caches are empty or hold what would be computed.
  pub record IsCached (a : App) : Type 0 where
    pub ids : (a.id_map ≡ none) ⊎ (a.id_map ≡ some (selected_ids trim a))
    pub channels : (a.filter_map ≡ none) ⊎ (a.filter_map ≡ some (allowed_ids a))

  -- What a channel is matched against.
  abbrev pub is_match : App → Channel → Bool
  is_match a c = elim (selected_ids trim a) [
    | none ↦ true
    | some selected ↦
        if c.id == ""
        then has_profile trim selected c
        else contains (allowed_channels trim selected a.channels) c.id
  ]

  -- The answer is the computed one, and only the caches have changed.
  abbrev Answers : {A : Type 0} → App → A → A × App → Type 0
  Answers a expected r =
      (r.0 ≡ expected)
      × (r.1.channels ≡ a.channels)
      × (selected_ids trim r.1 ≡ selected_ids trim a)
      × IsCached r.1

  load-IsCached :
      (channels : List Channel) (profiles : List String) (stored : Selection) (a : App)
      → IsCached (load trim channels profiles stored a)
  unfolding load
  load-IsCached channels profiles stored a = record { ids = inl refl; channels = inl refl }

  abbrev ids_with : App → Option (Option (List String)) → Option (List String) × App
  ids_with a cache = elim cache [
    | some cached ↦ (cached, a)
    | none ↦ (selected_ids trim a, record a { id_map = some (selected_ids trim a) })
  ]

  selected_profile_map_lem :
      (a : App) → IsCached a → Answers a (selected_ids trim a) (selected_profile_map trim a)
  unfolding selected_profile_map
  selected_profile_map_lem a h = elim h.ids [
    | inl e ↦
        subst (Answers a (selected_ids trim a)) (sym (ap (ids_with a) e))
          (refl, refl, refl, record { ids = inr refl; channels = h.channels })
    | inr e ↦
        subst (Answers a (selected_ids trim a)) (sym (ap (ids_with a) e)) (refl, refl, refl, h)
  ]

  abbrev found_in : Option (List String) → List Channel → Option (List String)
  found_in ids channels = elim ids [
    | none ↦ none
    | some selected ↦ some (allowed_channels trim selected channels)
  ]

  abbrev channels_with : App → Option (Option (List String)) → Option (List String) × App
  channels_with a cache = elim cache [
    | some cached ↦ (cached, a)
    | none ↦
        let r = selected_profile_map trim a in
        (found_in r.0 r.1.channels, record (r.1) { filter_map = some (found_in r.0 r.1.channels) })
  ]

  selected_profile_channel_map_lem :
      (a : App) → IsCached a → Answers a (allowed_ids a) (selected_profile_channel_map trim a)
  unfolding selected_profile_channel_map
  selected_profile_channel_map_lem a h =
      let r = selected_profile_map trim a in
      let k = selected_profile_map_lem a h in
      let same : found_in r.0 r.1.channels ≡ allowed_ids a =
        ap (λ ids. found_in ids r.1.channels) k.0 ∙ ap (found_in (selected_ids trim a)) k.1 in
      let later : found_in r.0 r.1.channels ≡ allowed_ids r.1 =
        ap (λ ids. found_in ids r.1.channels) (k.0 ∙ sym k.2) in
      elim h.channels [
        | inl e ↦
            subst (Answers a (allowed_ids a)) (sym (ap (channels_with a) e))
              (same, k.1, k.2, record { ids = k.3.ids; channels = inr (ap some later) })
        | inr e ↦
            subst (Answers a (allowed_ids a)) (sym (ap (channels_with a) e)) (refl, refl, refl, h)
      ]

  abbrev match_with : Channel → App → App → Option (List String) → Option (List String) → Bool × App
  match_with c r s allowed ids = elim allowed [
    | none ↦ (true, r)
    | some allowed ↦ if not (c.id == "") && contains allowed c.id then (true, r) else (
      c.id == "" && (elim ids [ none ↦ false | some selected ↦ has_profile trim selected c ]),
      if c.id == "" then s else r,
    )
  ]

  match_with-IsCached :
      (c : Channel) (r s : App) (allowed ids : Option (List String))
      → IsCached r
      → IsCached s
      → IsCached (match_with c r s allowed ids).1
  match_with-IsCached c r s none ids h k = h
  match_with-IsCached c r s (some allowed) ids h k =
      elim (Bool-cases (not (c.id == "") && contains allowed c.id)) [
        | inl e ↦ rw e h
        | inr e ↦ rw e (elim (Bool-cases (c.id == "")) [ inl f ↦ rw f k | inr f ↦ rw f h ])
      ]

  -- What the computed maps answer.
  abbrev answer_of : Channel → List Channel → Option (List String) → Bool
  answer_of c channels ids = elim ids [
    | none ↦ true
    | some selected ↦
        if c.id == ""
        then has_profile trim selected c
        else contains (allowed_channels trim selected channels) c.id
  ]

  match_with_answer :
      (c : Channel) (r s : App) (channels : List Channel) (ids : Option (List String))
      → (match_with c r s (found_in ids channels) ids).0 ≡ answer_of c channels ids
  match_with_answer c r s channels none = refl
  match_with_answer c r s channels (some selected) = ground arith

  -- When the caches of the selection are empty or hold what would be computed, a channel matches
  -- the selection exactly when all profiles are selected, or it is allowed by the channels that
  -- have a selected profile, or it has no identifier and a selected profile itself; and the
  -- caches stay that way.
  pub channel_matches_profile_selection_lem :
      (a : App) (c : Channel)
      → IsCached a
      → ((channel_matches_profile_selection trim c a).0 ≡ is_match a c)
        × IsCached (channel_matches_profile_selection trim c a).1
  unfolding channel_matches_profile_selection
  channel_matches_profile_selection_lem a c h =
      let r = selected_profile_channel_map trim a in
      let k = selected_profile_channel_map_lem a h in
      let s = selected_profile_map trim r.1 in
      let l = selected_profile_map_lem r.1 k.3 in
      (
        ap (λ o. (match_with c r.1 s.1 o s.0).0) k.0
            ∙ ap (λ o. (match_with c r.1 s.1 (allowed_ids a) o).0) (l.0 ∙ k.2)
            ∙ match_with_answer c r.1 s.1 a.channels (selected_ids trim a),
        match_with-IsCached c r.1 s.1 r.0 s.0 k.3 l.3,
      )
