-- ===== src/Lineups/Totals.antt =====
-- The categories that are listed, with their counts.
use silo_plugin_dispatcharr.Base.{
  String, ◌≡◌, refl, ◌∙◌, inl, inr, Bool, true, false, List, [], ◌∷◌, map, arith, Bool-cases,
  length, All, string_eq, nat_eq, ◌==◌, beq_refl, beq_sym, contains, IsDistinct, sort_by,
  sort_by-All, contains-map-sort_by,
}
use silo_plugin_dispatcharr.Lineups.Categories.{
  PathChannel, PathGroup, Category, parent_parts, collect, category_of,
  categories_from_channel_paths,
}
use silo_plugin_dispatcharr.Lineups.Counts.{
  groups_have, paths, channel_is_under, collect-groups, collect-AreGroups,
}

-- With distinct paths, what the groups have under a path is what its group has.
groups_have-none :
    (key id : String) (gs : List PathGroup)
    → contains (paths gs) key ≡ false
    → groups_have key id gs ≡ false
groups_have-none key id [] h = refl
groups_have-none key id (g ∷ gs) h = ground (arith, groups_have-none key id gs)

later :
    (g : PathGroup) (gs hs : List PathGroup)
    → contains (paths hs) g.path ≡ false
    → All (λ h. (id : String) → contains h.channel_ids id ≡ groups_have h.path id gs) hs
    → All (λ h. (id : String) → contains h.channel_ids id ≡ groups_have h.path id (g ∷ gs)) hs
later g gs [] c a = tt
later g gs (h ∷ hs) c a =
    let ne : (g.path == h.path) ≡ false = ground (arith, beq_sym g.path h.path) in
    (λ id. rw ne (a.0 id), later g gs hs (ground arith) a.1)

groups_have-All :
    (gs : List PathGroup)
    → IsDistinct (paths gs)
    → All (λ g. (id : String) → contains g.channel_ids id ≡ groups_have g.path id gs) gs
groups_have-All [] d = tt
groups_have-All (g ∷ gs) d = (
  λ id. ground (arith, beq_refl g.path, groups_have-none g.path id gs d.0),
  later g gs gs d.0 (groups_have-All gs d.1),
)

groups_have-path :
    (key id : String) (gs : List PathGroup)
    → groups_have key id gs ≡ true
    → contains (paths gs) key ≡ true
groups_have-path key id [] h = absurd (ground arith)
groups_have-path key id (g ∷ gs) h = ground (arith, groups_have-path key id gs)

module _ (parts_of : String → List String) (category_id : String → String)
    (before : String → String → Bool) (kind : String) where
  -- A category counts different channels: those that are included and have a path under its own.
  abbrev pub IsCounted : Bool → String → List PathChannel → Category → Type 0
  IsCounted all parent channels c =
      (path : String) × (ids : List String) × (c.id ≡ category_id path)
      × (c.count ≡ length ids)
      × IsDistinct ids
      × ((id : String)
          → contains ids id
            ≡ channel_is_under parts_of all (parent_parts parts_of parent) path id channels)

  IsCounted-map :
      (all : Bool) (parent : String) (channels : List PathChannel) (gs : List PathGroup)
      → All (λ g. IsCounted all parent channels (category_of parts_of category_id before kind g)) gs
      → All (IsCounted all parent channels) (map (category_of parts_of category_id before kind) gs)
  IsCounted-map all parent channels [] h = tt
  IsCounted-map all parent channels (g ∷ gs) h = (h.0, IsCounted-map all parent channels gs h.1)

  contains-category_id :
      (gs : List PathGroup) (key : String)
      → contains (paths gs) key ≡ true
      → contains
          (map (λ c. c.id) (map (category_of parts_of category_id before kind) gs))
          (category_id key)
        ≡ true
  contains-category_id [] key h = absurd (ground arith)
  contains-category_id (g ∷ gs) key h = elim (Bool-cases (g.path == key)) [
    | inl e ↦ rw ((string_eq.beq_iff g.path key).0 e) (rw (beq_refl (category_id key)) refl)
    | inr e ↦ ground (arith, contains-category_id gs key)
  ]

  IsCounted-All :
      (all : Bool) (parent : String) (channels : List PathChannel) (gs rest : List PathGroup)
      → ((key id : String)
          → groups_have key id gs
            ≡ channel_is_under parts_of all (parent_parts parts_of parent) key id channels)
      → All (λ g. (id : String) → contains g.channel_ids id ≡ groups_have g.path id gs) rest
      → All (λ g. IsDistinct g.channel_ids) rest
      → All
          (λ g. IsCounted all parent channels (category_of parts_of category_id before kind g))
          rest
  IsCounted-All all parent channels gs [] h a d = tt
  IsCounted-All all parent channels gs (g ∷ rest) h a d = (
    (g.path, g.channel_ids, refl, refl, d.0, λ id. a.0 id ∙ h g.path id),
    IsCounted-All all parent channels gs rest h a.1 d.1,
  )

  -- Each category that is made of the paths of channels counts different channels, exactly those
  -- that are included and have a path whose first parts, below the parent, are the path of the
  -- category; and each such path has a category.
  pub categories_from_channel_paths_lem :
      (parent : String) (channels : List PathChannel) (all : Bool)
      → All
          (IsCounted all parent channels)
          (categories_from_channel_paths parts_of category_id before kind parent channels all)
        × ((key id : String)
            → channel_is_under parts_of all (parent_parts parts_of parent) key id channels ≡ true
            → contains
                (map
                  (λ c. c.id)
                  (categories_from_channel_paths parts_of category_id before kind parent channels
                    all))
                (category_id key)
              ≡ true)
  unfolding categories_from_channel_paths
  categories_from_channel_paths_lem parent channels all =
      let by_path : PathGroup → PathGroup → Bool = λ g h. before g.path h.path in
      let gs = collect parts_of all (parent_parts parts_of parent) channels [] in
      let are =
        collect-AreGroups parts_of all (parent_parts parts_of parent) channels [] (tt, tt) in
      let have : (key id : String)
          → groups_have key id gs
            ≡ channel_is_under parts_of all (parent_parts parts_of parent) key id channels =
        λ key id. collect-groups parts_of all (parent_parts parts_of parent) channels [] key id in
      let counted = IsCounted-All all parent channels gs gs have (groups_have-All gs are.0) are.1 in
      (
        IsCounted-map all parent channels (sort_by by_path gs) (
            sort_by-All by_path
              (λ g. IsCounted all parent channels (category_of parts_of category_id before kind g))
              gs counted),
        λ key id u. contains-category_id (sort_by by_path gs) key (
            contains-map-sort_by by_path (λ g. g.path) gs key
            ∙ groups_have-path key id gs (have key id ∙ u)),
      )
