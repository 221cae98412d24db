-- ===== src/Lineups/Tests.antt =====
-- Concrete paths. The texts are taken as one part, but for those of the examples.
use silo_plugin_dispatcharr.Base.{
  String, ◌≡◌, refl, Bool, true, false, some, List, [], ◌∷◌, map, if◌then◌else◌, All, string_eq,
  nat_eq, ◌==◌, contains,
}
use silo_plugin_dispatcharr.Lineups.Paths.{
  join_path, PathTexts, append_unduplicated_path_parts, joined_behind, clean, last_of,
  append_virtual_path_parts,
}
use silo_plugin_dispatcharr.Lineups.Joint.{IsFresh, EndsIn, append_unduplicated_path_parts_lem}
use silo_plugin_dispatcharr.Lineups.Categories.{
  PathChannel, parent_parts, categories_from_channel_paths, child_categories_from_channel_paths,
}
use silo_plugin_dispatcharr.Lineups.Children.{child_categories_from_channel_paths_lem}
use silo_plugin_dispatcharr.Lineups.Counts.{channel_is_under}
use silo_plugin_dispatcharr.Lineups.Totals.{IsCounted, categories_from_channel_paths_lem}
use silo_plugin_dispatcharr.Lineups.Wrappers.{
  ProfileChannel, wrapper_of, all_sightings, redundant_profile_group_wrappers,
}
use silo_plugin_dispatcharr.Lineups.Candidates.{redundant_wrapper, of_key}
use silo_plugin_dispatcharr.Lineups.Redundant.{redundant_profile_group_wrappers_lem}

abbrev parts : String → List String
parts s =
    if s == "US / News"
    then "US" ∷ "News" ∷ []
    else if s == "US / Kids"
    then "US" ∷ "Kids" ∷ []
    else if s == ""
    then []
    else s ∷ []

abbrev path_texts : PathTexts
path_texts = record {
  lower = λ s. if s == "NEWS" then "News" else s;
  split_path = parts;
  split_dash = parts;
  split_pipe = parts;
  split_bar = parts;
  token = λ s. s;
}

appended_parts :
    (rest : List String) × (append_unduplicated_path_parts path_texts "US / News"
        ("NEWS" ∷ "East" ∷ [])
      ≡ joined_behind path_texts (clean path_texts ("US" ∷ "News" ∷ [])) rest)
    × IsFresh path_texts (last_of path_texts (clean path_texts ("US" ∷ "News" ∷ []))) rest
    × EndsIn path_texts (clean path_texts ("NEWS" ∷ "East" ∷ [])) rest
appended_parts = append_unduplicated_path_parts_lem path_texts "US / News" ("NEWS" ∷ "East" ∷ [])

news_once :
    append_virtual_path_parts path_texts "US / News" ("NEWS" ∷ "East" ∷ []) true
    ≡ "US / News / East"
unfolding append_virtual_path_parts
news_once = refl

abbrev channels : List PathChannel
channels =
    record { id = "1"; is_included = true; paths = "US / News" ∷ "US / Kids" ∷ [] }
    ∷ record { id = "2"; is_included = true; paths = "US / News" ∷ [] }
    ∷ record { id = "3"; is_included = false; paths = "US / Kids" ∷ [] }
    ∷ []

abbrev same_id : String → String
same_id s = s

abbrev never_before : String → String → Bool
never_before a b = false

child_categories_from_channel_paths_lem_example :
    child_categories_from_channel_paths parts same_id never_before "virtual" "US" channels
    ≡ categories_from_channel_paths parts same_id never_before "virtual" "US" channels false
child_categories_from_channel_paths_lem_example =
    child_categories_from_channel_paths_lem parts same_id never_before "virtual" "US" channels

categories_from_channel_paths_lem_example :
    All
      (IsCounted parts same_id never_before "virtual" true "" channels)
      (categories_from_channel_paths parts same_id never_before "virtual" "" channels true)
    × ((key id : String)
        → channel_is_under parts true (parent_parts parts "") key id channels ≡ true
        → contains
            (map
              (λ c. c.id)
              (categories_from_channel_paths parts same_id never_before "virtual" "" channels true))
            key
          ≡ true)
categories_from_channel_paths_lem_example =
    categories_from_channel_paths_lem parts same_id never_before "virtual" "" channels true

counts :
    map
      (λ c. c.count)
      (categories_from_channel_paths parts same_id never_before "virtual" "" channels true)
    ≡ 2 ∷ 2 ∷ 1 ∷ []
unfolding categories_from_channel_paths
counts = refl

abbrev profile_channels : List ProfileChannel
profile_channels =
    record { group_path = "US / News"; profile_paths = "Home" ∷ [] }
    ∷ record { group_path = "US / Kids"; profile_paths = "Home" ∷ "Kids" ∷ [] }
    ∷ []

redundant_profile_group_wrappers_lem_example :
    wrapper_of "Home" (redundant_profile_group_wrappers path_texts true true profile_channels)
    ≡ redundant_wrapper (of_key "Home" (all_sightings path_texts profile_channels))
redundant_profile_group_wrappers_lem_example =
    redundant_profile_group_wrappers_lem path_texts profile_channels "Home"

home_hides_us :
    wrapper_of "Home" (redundant_profile_group_wrappers path_texts true true profile_channels)
    ≡ some "US"
unfolding redundant_profile_group_wrappers join_path
home_hides_us = refl
