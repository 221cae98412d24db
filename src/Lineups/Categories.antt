-- ===== src/Lineups/Categories.antt =====
-- categoriesFromChannelPaths and childCategoriesFromChannelPaths. The object `groups` is the list of its
-- entries in the order in which they were added, and `path.split(" / ").filter(Boolean)` is a parameter.
use silo_plugin_dispatcharr.Base.{
  ℕ, zero, suc, ◌+◌, ◌-◌, String, Bool, true, false, ◌&&◌, List, [], ◌∷◌, ◌++◌, map, nat_beq,
  if◌then◌else◌, length, take, string_eq, nat_eq, ◌==◌, contains, sort_by,
}
use silo_plugin_dispatcharr.Lineups.Paths.{join_path}

-- A channel by its identifier, with whether it is included, and its paths.
pub record PathChannel : Type 0 where
  pub id : String
  pub is_included : Bool
  pub paths : List String

-- A group while channels are collected: its path, its name and the identifiers of its channels.
pub record PathGroup : Type 0 where
  pub path : String
  pub name : String
  pub channel_ids : List String

pub record Category : Type 0 where
  pub id : String
  pub name : String
  pub kind : String
  pub count : ℕ

-- `channelIDs[id] = true`
abbrev pub mark : String → List String → List String
mark id ids = if contains ids id then ids else ids ++ id ∷ []

-- `groups[path] = groups[path] || ...`, and the channel marked.
unfoldable pub add_channel : String → String → String → List PathGroup → List PathGroup
add_channel path name id [] = record { path = path; name = name; channel_ids = id ∷ [] } ∷ []
add_channel path name id (g ∷ gs) =
    if g.path == path
    then record g { channel_ids = mark id g.channel_ids } ∷ gs
    else g ∷ add_channel path name id gs

-- Whether the parts are longer than those of the parent and begin with them.
abbrev pub is_below : List String → List String → Bool
is_below parent [] = false
is_below [] (p ∷ ps) = true
is_below (q ∷ qs) (p ∷ ps) = p == q && is_below qs ps

-- `parts[index]`, where there is one.
abbrev pub part_at : ℕ → List String → String
part_at index [] = ""
part_at zero (p ∷ ps) = p
part_at (suc index) (p ∷ ps) = part_at index ps

module _ (parts_of : String → List String) where
  abbrev pub parent_parts : String → List String
  parent_parts parent = if parent == "" then [] else parts_of parent

  -- The loop over the indices from one on, as many as asked: each first part of the path is a group.
  unfoldable pub add_prefixes :
      Bool → List String → String → ℕ → ℕ → List PathGroup → List PathGroup
  unfolding add_channel join_path
  add_prefixes all parts id zero index groups = groups
  add_prefixes all parts id (suc count) index groups =
      let path = join_path (take (suc index) parts) in
      add_prefixes all parts id count (suc index)
        (add_channel path (if all then path else part_at index parts) id groups)

  unfoldable pub add_path : Bool → List String → String → String → List PathGroup → List PathGroup
  unfolding add_prefixes
  add_path all parent id path groups =
      let parts = parts_of path in
      let limit = if all then length parts else length parent + 1 in
      if is_below parent parts
      then add_prefixes all parts id (limit - length parent) (length parent) groups
      else groups

  unfoldable pub add_paths :
      Bool → List String → String → List String → List PathGroup → List PathGroup
  unfolding add_path
  add_paths all parent id [] groups = groups
  add_paths all parent id (p ∷ ps) groups =
      add_paths all parent id ps (add_path all parent id p groups)

  unfoldable pub collect : Bool → List String → List PathChannel → List PathGroup → List PathGroup
  unfolding add_paths
  collect all parent [] groups = groups
  collect all parent (c ∷ cs) groups =
      collect all parent cs
        (if c.is_included then add_paths all parent c.id c.paths groups else groups)

  -- The identifier of a path, how texts compare, and the kind.
  module _ (category_id : String → String) (before : String → String → Bool) (kind : String) where
    abbrev pub category_of : PathGroup → Category
    category_of g = record {
      id = category_id g.path;
      name = g.name;
      kind = kind;
      count = length g.channel_ids;
    }

    abbrev pub sorted_categories : List PathGroup → List Category
    sorted_categories groups = map category_of (sort_by (λ g h. before g.path h.path) groups)

    unfoldable pub categories_from_channel_paths : String → List PathChannel → Bool → List Category
    unfolding collect sort_by
    categories_from_channel_paths parent channels all =
        sorted_categories (collect all (parent_parts parent) channels [])

    -- The loop of the children: over all indices of a path, with what it skips.
    unfoldable pub add_child_at :
        List String → List String → String → ℕ → ℕ → List PathGroup → List PathGroup
    unfolding add_channel join_path
    add_child_at parent parts id zero index groups = groups
    add_child_at parent parts id (suc count) index groups =
        let path = join_path (take (suc index) parts) in
        let added =
          if nat_beq index (length parent)
          then add_channel path (part_at (length parent) parts) id groups
          else groups in
        let rest = add_child_at parent parts id count (suc index) added in
        if is_below parent parts then rest else groups

    unfoldable pub add_children :
        List String → String → List String → List PathGroup → List PathGroup
    unfolding add_child_at
    add_children parent id [] groups = groups
    add_children parent id (p ∷ ps) groups =
        add_children parent id ps
          (add_child_at parent (parts_of p) id (length (parts_of p)) 0 groups)

    unfoldable pub collect_children :
        List String → List PathChannel → List PathGroup → List PathGroup
    unfolding add_children
    collect_children parent [] groups = groups
    collect_children parent (c ∷ cs) groups =
        collect_children parent cs
          (if c.is_included then add_children parent c.id c.paths groups else groups)

    unfoldable pub child_categories_from_channel_paths : String → List PathChannel → List Category
    unfolding collect_children sort_by
    child_categories_from_channel_paths parent channels =
        sorted_categories (collect_children (parent_parts parent) channels [])
