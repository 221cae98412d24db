-- ===== src/Lineups/Wrappers.antt =====
-- redundantProfileGroupWrappers without its cache: the first part of the groups of a profile that says
-- nothing, because all channels of the profile have it. The channels are the effective ones with what
-- sourceGroupPathForChannel and profilePathsForChannel give, and objects are lists of their entries.
use silo_plugin_dispatcharr.Base.{
  String, Bool, false, ◌&&◌, ◌||◌, not, Option, none, some, List, [], ◌∷◌, ◌++◌, map, ltb, nat_beq,
  if◌then◌else◌, length, filter, string_eq, nat_eq, ◌==◌,
}
use silo_plugin_dispatcharr.Lineups.Paths.{PathTexts, join_path, clean}
use silo_plugin_dispatcharr.Lineups.Categories.{mark}

pub record ProfileChannel : Type 0 where
  pub group_path : String
  pub profile_paths : List String

-- What a channel says of one of its profiles: the first part of its group, whether there are more, and
-- those, as lower-case texts.
pub record Sighting : Type 0 where
  pub key : String
  pub wrapper : String
  pub is_long : Bool
  pub tail : String

pub record Candidate : Type 0 where
  pub key : String
  pub wrapper : String
  pub is_eligible : Bool
  pub tails : List String

abbrev pub first_candidate : Sighting → Candidate
first_candidate s = record {
  key = s.key;
  wrapper = s.wrapper;
  is_eligible = s.is_long;
  tails = if s.is_long then s.tail ∷ [] else [];
}

abbrev pub merge_candidate : Candidate → Sighting → Candidate
merge_candidate c s =
    if not (c.wrapper == s.wrapper) || not s.is_long
    then record c { is_eligible = false }
    else record c { tails = mark s.tail c.tails }

unfoldable pub add_candidate : Sighting → List Candidate → List Candidate
add_candidate s [] = first_candidate s ∷ []
add_candidate s (c ∷ cs) =
    if c.key == s.key then merge_candidate c s ∷ cs else c ∷ add_candidate s cs

unfoldable pub add_candidates : List Candidate → List Sighting → List Candidate
unfolding add_candidate
add_candidates cs [] = cs
add_candidates cs (s ∷ ss) = add_candidates (add_candidate s cs) ss

abbrev pub is_redundant : Candidate → Bool
is_redundant c = c.is_eligible && ltb 1 (length c.tails)

module _ (t : PathTexts) where
  abbrev pub sightings_of : List String → List String → List Sighting
  sightings_of [] profile_paths = []
  sightings_of (p ∷ ps) profile_paths =
      map
        (λ profile_path. record {
          key = t.lower profile_path;
          wrapper = t.lower p;
          is_long = not (nat_beq (length ps) 0);
          tail = t.lower (join_path ps);
        })
        profile_paths

  abbrev pub all_sightings : List ProfileChannel → List Sighting
  all_sightings [] = []
  all_sightings (c ∷ cs) =
      sightings_of (clean t (t.split_path c.group_path)) c.profile_paths ++ all_sightings cs

  -- The switches of the settings, and the channels.
  unfoldable pub redundant_profile_group_wrappers :
      Bool → Bool → List ProfileChannel → List (String × String)
  unfolding add_candidates
  redundant_profile_group_wrappers flatten uses_profile_groups channels =
      if not flatten || not uses_profile_groups
      then []
      else map (λ c. (c.key, c.wrapper))
          (filter is_redundant (add_candidates [] (all_sightings channels)))

-- `wrappers[key]`
abbrev pub wrapper_of : String → List (String × String) → Option String
wrapper_of key [] = none
wrapper_of key (w ∷ ws) = if w.0 == key then some w.1 else wrapper_of key ws
