-- ===== src/Selection/State.antt =====
-- The selection of profiles and its two caches. A cache is `none` when it is to be computed.
use silo_plugin_dispatcharr.Base.{
  String, Bool, true, false, ◌&&◌, not, Option, none, some, List, [], map, nat_beq, if◌then◌else◌,
  length, filter, string_eq, nat_eq, ◌==◌, contains,
}
use silo_plugin_dispatcharr.Ids.{unique_ids}

pub record Selection : Type 0 where
  pub is_selected : Bool
  pub profile_ids : List String

pub record Channel : Type 0 where
  pub id : String
  pub profile_ids : List String

-- `trim` is the language's, and `profiles` has the identifiers of the profiles there are.
unfoldable pub normalize_profile_selection : (String → String) → List String → Selection → Selection
unfolding unique_ids
normalize_profile_selection trim profiles value =
    let named = unique_ids (filter (λ id. not (id == "")) (map trim value.profile_ids)) in
    let valid = if nat_beq (length profiles) 0 then named else filter (contains profiles) named in
    let is_selected = value.is_selected && not (nat_beq (length valid) 0) in
    record { is_selected = is_selected; profile_ids = if is_selected then valid else [] }

-- What the page has of channels, profiles and the stored selection, with `profileSelectionIDMap` and
-- `profileChannelFilterMap`.
pub record App : Type 0 where
  pub channels : List Channel
  pub profiles : List String
  pub stored : Selection
  pub id_map : Option (Option (List String))
  pub filter_map : Option (Option (List String))

module _ (trim : String → String) where
  -- The two maps, computed.
  abbrev pub selected_ids : App → Option (List String)
  selected_ids a =
      let selection = normalize_profile_selection trim a.profiles a.stored in
      if selection.is_selected then some selection.profile_ids else none

  abbrev pub has_profile : List String → Channel → Bool
  has_profile selected c = not (nat_beq (length (filter (contains selected) c.profile_ids)) 0)

  abbrev pub allowed_channels : List String → List Channel → List String
  allowed_channels selected channels = map (λ c. c.id) (filter (has_profile selected) channels)

  unfoldable pub selected_profile_map : App → Option (List String) × App
  unfolding normalize_profile_selection
  selected_profile_map a = elim a.id_map [
    | some cached ↦ (cached, a)
    | none ↦ (selected_ids a, record a { id_map = some (selected_ids a) })
  ]

  unfoldable pub selected_profile_channel_map : App → Option (List String) × App
  unfolding selected_profile_map
  selected_profile_channel_map a = elim a.filter_map [
    | some cached ↦ (cached, a)
    | none ↦
        let r = selected_profile_map a in
        let found : Option (List String) = elim (r.0) [
          | none ↦ none
          | some selected ↦ some (allowed_channels selected (r.1).channels)
        ] in
        (found, record (r.1) { filter_map = some found })
  ]

  -- `channelMatchesProfileSelection` of a channel that is there.
  unfoldable pub channel_matches_profile_selection : Channel → App → Bool × App
  unfolding selected_profile_channel_map
  channel_matches_profile_selection c a =
      let r = selected_profile_channel_map a in
      let s = selected_profile_map r.1 in
      elim (r.0) [
        | none ↦ (true, r.1)
        | some allowed ↦ if not (c.id == "") && contains allowed c.id then (true, r.1) else (
          c.id == "" && (elim (s.0) [ none ↦ false | some selected ↦ has_profile selected c ]),
          if c.id == "" then s.1 else r.1,
        )
      ]

  -- New preferences or channels, with `invalidateProfileSelectionCache`.
  unfoldable pub load : List Channel → List String → Selection → App → App
  load channels profiles stored a = record {
    channels = channels;
    profiles = profiles;
    stored = stored;
    id_map = none;
    filter_map = none;
  }
