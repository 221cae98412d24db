-- ===== src/Lineups/Counts.antt =====
-- Which channels a category counts.
use silo_plugin_dispatcharr.Base.{
  ℕ, zero, suc, ◌+◌, ◌-◌, String, ◌≡◌, refl, sym, ap, ◌∙◌, inl, inr, Bool, true, false, ◌&&◌, ◌||◌,
  List, [], ◌∷◌, ◌++◌, map, arith, if◌then◌else◌, Bool-cases, length, take, All, string_eq, nat_eq,
  ◌==◌, beq_sym, contains, IsDistinct, contains-append,
}
use silo_plugin_dispatcharr.Lineups.Paths.{join_path}
use silo_plugin_dispatcharr.Lineups.Categories.{
  PathChannel, PathGroup, mark, add_channel, is_below, part_at, add_prefixes, add_path, add_paths,
  collect,
}

abbrev pub groups_have : String → String → List PathGroup → Bool
groups_have key id [] = false
groups_have key id (g ∷ gs) = (g.path == key && contains g.channel_ids id) || groups_have key id gs

abbrev pub paths : List PathGroup → List String
paths gs = map (λ g. g.path) gs

-- Groups with distinct paths, each with distinct channels.
abbrev pub AreGroups : List PathGroup → Type 0
AreGroups gs = IsDistinct (paths gs) × All (λ g. IsDistinct g.channel_ids) gs

contains-mark :
    (id : String) (ids : List String) (i : String)
    → contains (mark id ids) i ≡ (contains ids i || id == i)
contains-mark id ids i = ground (arith, contains-append ids (id ∷ []) i, string_eq.beq_iff id i)

append-IsDistinct :
    (ids : List String) (id : String)
    → IsDistinct ids
    → contains ids id ≡ false
    → IsDistinct (ids ++ id ∷ [])
append-IsDistinct [] id d c = (refl, tt)
append-IsDistinct (x ∷ xs) id d c =
    ground (arith, append-IsDistinct xs id, contains-append xs (id ∷ []) x, beq_sym id x)

mark-IsDistinct : (id : String) (ids : List String) → IsDistinct ids → IsDistinct (mark id ids)
mark-IsDistinct id ids d = ground (arith, append-IsDistinct ids id d)

spread : (k c d h : Bool) → ((k && (c || d)) || h) ≡ (((k && c) || h) || (k && d))
spread k c d h = ground arith

regroup : (a b c : Bool) → (a || (b || c)) ≡ ((a || b) || c)
regroup a b c = ground arith

groups_have-add_channel :
    (path name id : String) (gs : List PathGroup) (key i : String)
    → groups_have key i (add_channel path name id gs)
      ≡ (groups_have key i gs || (path == key && id == i))
unfolding add_channel
groups_have-add_channel path name id [] key i = ground arith
groups_have-add_channel path name id (g ∷ gs) key i =
    let rest = groups_have key i gs in
    elim (Bool-cases (g.path == path)) [
      | inl e ↦
          let same : (g.path == key) ≡ (path == key) =
            ap (λ p. p == key) ((string_eq.beq_iff g.path path).0 e) in
          rw (e, contains-mark id g.channel_ids i, same)
            (spread (path == key) (contains g.channel_ids i) (id == i) rest)
      | inr e ↦
          rw (e, groups_have-add_channel path name id gs key i)
            (regroup (g.path == key && contains g.channel_ids i) rest (path == key && id == i))
    ]

contains-paths-add_channel :
    (path name id : String) (gs : List PathGroup) (key : String)
    → contains (paths (add_channel path name id gs)) key ≡ (contains (paths gs) key || path == key)
unfolding add_channel
contains-paths-add_channel path name id [] key = ground arith
contains-paths-add_channel path name id (g ∷ gs) key =
    ground (arith, contains-paths-add_channel path name id gs key, string_eq.beq_iff g.path path)

add_channel-AreGroups :
    (path name id : String) (gs : List PathGroup)
    → AreGroups gs
    → AreGroups (add_channel path name id gs)
unfolding add_channel
add_channel-AreGroups path name id [] h = ((refl, tt), ((refl, tt), tt))
add_channel-AreGroups path name id (g ∷ gs) h = elim (Bool-cases (g.path == path)) [
  | inl e ↦ rw e (h.0, (mark-IsDistinct id g.channel_ids h.1.0, h.1.1))
  | inr e ↦
      let rest = add_channel-AreGroups path name id gs (h.0.1, h.1.1) in
      let fresh : contains (paths (add_channel path name id gs)) g.path ≡ false =
        ground (
          arith,
          contains-paths-add_channel path name id gs g.path,
          h.0.0,
          e,
          beq_sym g.path path,
        ) in
      rw e ((fresh, rest.0), (h.1.0, rest.1))
]

no_more : (g i : Bool) → g ≡ (g || (i && false))
no_more g i = ground arith

gather : (g i p q : Bool) → ((g || (i && p)) || (i && q)) ≡ (g || (i && (p || q)))
gather g i p q = ground arith

rearrange : (g k i p : Bool) → ((g || (k && i)) || (i && p)) ≡ (g || (i && (k || p)))
rearrange g k i p = ground arith

module _ (parts_of : String → List String) where
  -- Whether one of so many first parts of a path, from an index on, is the path `key`.
  abbrev pub prefix_is : List String → ℕ → ℕ → String → Bool
  prefix_is parts zero index key = false
  prefix_is parts (suc count) index key =
      join_path (take (suc index) parts) == key || prefix_is parts count (suc index) key

  -- A path is listed below a parent under `key`.
  abbrev path_is_under : Bool → List String → String → String → Bool
  path_is_under all parent key path =
      let parts = parts_of path in
      let limit = if all then length parts else length parent + 1 in
      is_below parent parts && prefix_is parts (limit - length parent) (length parent) key

  abbrev any_under : Bool → List String → String → List String → Bool
  any_under all parent key [] = false
  any_under all parent key (p ∷ ps) = path_is_under all parent key p || any_under all parent key ps

  -- An included channel with the identifier has such a path.
  abbrev pub channel_is_under : Bool → List String → String → String → List PathChannel → Bool
  channel_is_under all parent key id [] = false
  channel_is_under all parent key id (c ∷ cs) =
      (c.is_included && c.id == id && any_under all parent key c.paths)
      || channel_is_under all parent key id cs

  add_prefixes-groups :
      (all : Bool) (parts : List String) (id : String) (count index : ℕ) (gs : List PathGroup)
      (key i : String)
      → groups_have key i (add_prefixes parts_of all parts id count index gs)
        ≡ (groups_have key i gs || (id == i && prefix_is parts count index key))
  unfolding add_prefixes
  add_prefixes-groups all parts id zero index gs key i = ground arith
  add_prefixes-groups all parts id (suc count) index gs key i =
      let path = join_path (take (suc index) parts) in
      let name = if all then path else part_at index parts in
      add_prefixes-groups all parts id count (suc index) (add_channel path name id gs) key i
      ∙ ap (λ b. b || (id == i && prefix_is parts count (suc index) key))
          (groups_have-add_channel path name id gs key i)
      ∙ rearrange (groups_have key i gs) (path == key) (id == i)
          (prefix_is parts count (suc index) key)

  add_prefixes-AreGroups :
      (all : Bool) (parts : List String) (id : String) (count index : ℕ) (gs : List PathGroup)
      → AreGroups gs
      → AreGroups (add_prefixes parts_of all parts id count index gs)
  unfolding add_prefixes
  add_prefixes-AreGroups all parts id zero index gs h = h
  add_prefixes-AreGroups all parts id (suc count) index gs h =
      let path = join_path (take (suc index) parts) in
      let name = if all then path else part_at index parts in
      add_prefixes-AreGroups all parts id count (suc index) (add_channel path name id gs)
        (add_channel-AreGroups path name id gs h)

  add_path-groups :
      (all : Bool) (parent : List String) (id path : String) (gs : List PathGroup) (key i : String)
      → groups_have key i (add_path parts_of all parent id path gs)
        ≡ (groups_have key i gs || (id == i && path_is_under all parent key path))
  unfolding add_path
  add_path-groups all parent id path gs key i =
      let parts = parts_of path in
      let limit = if all then length parts else length parent + 1 in
      elim (Bool-cases (is_below parent parts)) [
        | inl e ↦
            rw e (add_prefixes-groups all parts id (limit - length parent) (length parent) gs key i)
        | inr e ↦ rw e (no_more (groups_have key i gs) (id == i))
      ]

  add_path-AreGroups :
      (all : Bool) (parent : List String) (id path : String) (gs : List PathGroup)
      → AreGroups gs
      → AreGroups (add_path parts_of all parent id path gs)
  unfolding add_path
  add_path-AreGroups all parent id path gs h =
      let parts = parts_of path in
      let limit = if all then length parts else length parent + 1 in
      elim (Bool-cases (is_below parent parts)) [
        | inl e ↦
            rw e (add_prefixes-AreGroups all parts id (limit - length parent) (length parent) gs h)
        | inr e ↦ rw e h
      ]

  add_paths-groups :
      (all : Bool) (parent : List String) (id : String) (ps : List String) (gs : List PathGroup)
      (key i : String)
      → groups_have key i (add_paths parts_of all parent id ps gs)
        ≡ (groups_have key i gs || (id == i && any_under all parent key ps))
  unfolding add_paths
  add_paths-groups all parent id [] gs key i = no_more (groups_have key i gs) (id == i)
  add_paths-groups all parent id (p ∷ ps) gs key i =
      add_paths-groups all parent id ps (add_path parts_of all parent id p gs) key i
      ∙ ap (λ b. b || (id == i && any_under all parent key ps))
          (add_path-groups all parent id p gs key i)
      ∙ gather (groups_have key i gs) (id == i) (path_is_under all parent key p)
          (any_under all parent key ps)

  add_paths-AreGroups :
      (all : Bool) (parent : List String) (id : String) (ps : List String) (gs : List PathGroup)
      → AreGroups gs
      → AreGroups (add_paths parts_of all parent id ps gs)
  unfolding add_paths
  add_paths-AreGroups all parent id [] gs h = h
  add_paths-AreGroups all parent id (p ∷ ps) gs h =
      add_paths-AreGroups all parent id ps (add_path parts_of all parent id p gs)
        (add_path-AreGroups all parent id p gs h)

  pub collect-groups :
      (all : Bool) (parent : List String) (cs : List PathChannel) (gs : List PathGroup)
      (key i : String)
      → groups_have key i (collect parts_of all parent cs gs)
        ≡ (groups_have key i gs || channel_is_under all parent key i cs)
  unfolding collect
  collect-groups all parent [] gs key i = no_more (groups_have key i gs) true
  collect-groups all parent (c ∷ cs) gs key i = elim (Bool-cases c.is_included) [
    | inl e ↦ rw e (
        collect-groups all parent cs (add_paths parts_of all parent c.id c.paths gs) key i
        ∙ ap (λ b. b || channel_is_under all parent key i cs)
            (add_paths-groups all parent c.id c.paths gs key i)
        ∙ sym (
            regroup (groups_have key i gs) (c.id == i && any_under all parent key c.paths)
              (channel_is_under all parent key i cs)))
    | inr e ↦ rw e (collect-groups all parent cs gs key i)
  ]

  pub collect-AreGroups :
      (all : Bool) (parent : List String) (cs : List PathChannel) (gs : List PathGroup)
      → AreGroups gs
      → AreGroups (collect parts_of all parent cs gs)
  unfolding collect
  collect-AreGroups all parent [] gs h = h
  collect-AreGroups all parent (c ∷ cs) gs h = elim (Bool-cases c.is_included) [
    | inl e ↦ rw e (
        collect-AreGroups all parent cs (add_paths parts_of all parent c.id c.paths gs)
          (add_paths-AreGroups all parent c.id c.paths gs h))
    | inr e ↦ rw e (collect-AreGroups all parent cs gs h)
  ]
