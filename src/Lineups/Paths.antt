-- ===== src/Lineups/Paths.antt =====
-- The paths of lineup.js. A path is a text of parts with " / " between them.
use silo_plugin_dispatcharr.Base.{
  String, Bool, true, false, ◌||◌, not, Option, none, some, List, [], ◌∷◌, ◌++◌, map, if◌then◌else◌,
  filter, string_eq, nat_eq, ◌==◌,
}
use Prim.Native.String.{◌++◌ as concat}

-- `parts.join(" / ")`
abbrev join_tail : String → List String → String
join_tail s [] = s
join_tail s (p ∷ ps) = concat s (concat " / " (join_tail p ps))

unfoldable pub join_path : List String → String
join_path [] = ""
join_path (p ∷ ps) = join_tail p ps

-- The language's `toLowerCase`, the splits at " / ", at the delimiter of the settings and at "|", and
-- `normalizedNameToken`'s trimming and joining of blanks.
pub record PathTexts : Type 0 where
  pub lower : String → String
  pub split_path : String → List String
  pub split_dash : String → List String
  pub split_pipe : String → List String
  pub split_bar : String → List String
  pub token : String → String

module _ (t : PathTexts) where
  -- `parts.map(normalizedNameToken).filter(Boolean)`
  abbrev pub clean : List String → List String
  clean parts = filter (λ p. not (p == "")) (map t.token parts)

  unfoldable pub parsed_delimited_path : String → Bool → List String
  parsed_delimited_path name is_dash =
      let token = t.token name in
      if token == "" then [] else clean (if is_dash then t.split_dash token else t.split_pipe token)

  unfoldable pub channel_name_path_parts : String → List String
  channel_name_path_parts name = clean (t.split_bar name)

  abbrev pub same_part : String → String → Bool
  same_part a b = t.lower a == t.lower b

  -- The first loop: what is left of the additions behind the prefix that they share with the base.
  unfoldable pub drop_shared : List String → List String → List String
  drop_shared [] additions = additions
  drop_shared (b ∷ bs) [] = []
  drop_shared (b ∷ bs) (a ∷ more) = if same_part b a then drop_shared bs more else a ∷ more

  -- The second loop: the additions that repeat the last part of the base.
  unfoldable pub drop_repeated : String → List String → List String
  drop_repeated last [] = []
  drop_repeated last (a ∷ more) = if same_part last a then drop_repeated last more else a ∷ more

  abbrev pub last_of : List String → Option String
  last_of [] = none
  last_of (p ∷ []) = some p
  last_of (p ∷ (q ∷ qs)) = last_of (q ∷ qs)

  abbrev pub drop_behind : Option String → List String → List String
  drop_behind none additions = additions
  drop_behind (some last) additions = drop_repeated last additions

  unfoldable pub new_parts : List String → List String → List String
  unfolding drop_shared drop_repeated
  new_parts base_parts additions =
      drop_behind (last_of base_parts) (drop_shared base_parts additions)

  abbrev pub joined_behind : List String → List String → String
  joined_behind base_parts [] = ""
  joined_behind base_parts (a ∷ more) = join_path (base_parts ++ a ∷ more)

  unfoldable pub append_unduplicated_path_parts : String → List String → String
  unfolding new_parts join_path
  append_unduplicated_path_parts base_path extra_parts =
      let base_parts = clean (t.split_path base_path) in
      joined_behind base_parts (new_parts base_parts (clean extra_parts))

  abbrev is_empty : List String → Bool
  is_empty [] = true
  is_empty (p ∷ ps) = false

  unfoldable pub append_virtual_path_parts : String → List String → Bool → String
  unfolding append_unduplicated_path_parts join_path
  append_virtual_path_parts base_path extra_parts collapse_duplicates =
      let base_parts = clean (t.split_path base_path) in
      let additions = clean extra_parts in
      if is_empty base_parts || is_empty additions
      then ""
      else if collapse_duplicates
      then append_unduplicated_path_parts base_path additions
      else join_path (base_parts ++ additions)
