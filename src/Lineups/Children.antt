-- ===== src/Lineups/Children.antt =====
-- The two ways in which the code lists the categories right below a path.
use silo_plugin_dispatcharr.Base.{
  ℕ, zero, suc, ◌+◌, ◌-◌, ◌≤◌, ◌<◌, String, ◌≡◌, refl, ap, ◌∙◌, inl, inr, Bool, true, false, List,
  [], ◌∷◌, arith, nat_beq, nat_beq_iff, Bool-cases, length, take, string_eq, nat_eq,
}
use silo_plugin_dispatcharr.Lineups.Paths.{join_path}
use silo_plugin_dispatcharr.Lineups.Categories.{
  PathChannel, PathGroup, add_channel, is_below, part_at, parent_parts, add_prefixes, add_path,
  add_paths, collect, sorted_categories, categories_from_channel_paths, add_child_at, add_children,
  collect_children, child_categories_from_channel_paths,
}

is_below_longer :
    (parent parts : List String) → is_below parent parts ≡ true → length parent < length parts
is_below_longer parent [] h = absurd (ground arith)
is_below_longer [] (p ∷ ps) h = omega arith
is_below_longer (q ∷ qs) (p ∷ ps) h = ground (arith, is_below_longer qs ps)

module _ (parts_of : String → List String) (category_id : String → String)
    (before : String → String → Bool) (kind : String) where
  abbrev child_step : List String → List String → String → List PathGroup → List PathGroup
  child_step parent parts id groups =
      add_channel (join_path (take (suc (length parent)) parts)) (part_at (length parent) parts) id
        groups

  -- Behind the index of the children, the loop adds nothing.
  past_children :
      (parent parts : List String) (id : String) (count index : ℕ) (groups : List PathGroup)
      → length parent < index
      → add_child_at parts_of category_id before kind parent parts id count index groups ≡ groups
  unfolding add_child_at
  past_children parent parts id zero index groups h = refl
  past_children parent parts id (suc count) index groups h =
      let ne : nat_beq index (length parent) ≡ false = ground arith in
      elim (Bool-cases (is_below parent parts)) [
        | inl e ↦ rw (ne, e) (past_children parent parts id count (suc index) groups (omega arith))
        | inr e ↦ rw e refl
      ]

  -- A path that is not below the parent adds nothing.
  nothing :
      (parent parts : List String) (id : String) (count : ℕ) (groups : List PathGroup)
      → is_below parent parts ≡ false
      → add_child_at parts_of category_id before kind parent parts id count 0 groups ≡ groups
  unfolding add_child_at
  nothing parent parts id zero groups e = refl
  nothing parent parts id (suc count) groups e = rw e refl

  up_to_children :
      (parent parts : List String) (id : String) (count index : ℕ) (groups : List PathGroup)
      → is_below parent parts ≡ true
      → index ≤ length parent
      → length parent < index + count
      → add_child_at parts_of category_id before kind parent parts id count index groups
        ≡ child_step parent parts id groups
  unfolding add_child_at
  up_to_children parent parts id zero index groups e l h = absurd (omega arith)
  up_to_children parent parts id (suc count) index groups e l h =
      elim (Bool-cases (nat_beq index (length parent))) [
        | inl f ↦
            let same : index ≡ length parent = (nat_beq_iff index (length parent)).0 f in
            let here : ℕ → List PathGroup = λ i.
              add_channel (join_path (take (suc i) parts)) (part_at (length parent) parts) id
                groups in
            rw (f, e)
              (past_children parent parts id count (suc index) (here index) (omega (arith, same))
                ∙ ap here same)
        | inr f ↦
            rw (f, e)
              (up_to_children parent parts id count (suc index) groups e (ground arith)
                (omega arith))
      ]

  add_child_at-add_path :
      (parent : List String) (id path : String) (groups : List PathGroup)
      → add_child_at parts_of category_id before kind parent
          (parts_of path)
          id
          (length (parts_of path))
          0
          groups
        ≡ add_path parts_of false parent id path groups
  unfolding add_path add_prefixes
  add_child_at-add_path parent id path groups =
      let parts = parts_of path in
      elim (Bool-cases (is_below parent parts)) [
        | inl e ↦
            let one : (length parent + 1) - length parent ≡ 1 = omega arith in
            rw (e, one)
              (up_to_children parent parts id (length parts) 0 groups e (omega arith)
                (omega (arith, is_below_longer parent parts e)))
        | inr e ↦ rw e (nothing parent parts id (length parts) groups e)
      ]

  add_children-add_paths :
      (parent : List String) (id : String) (paths : List String) (groups : List PathGroup)
      → add_children parts_of category_id before kind parent id paths groups
        ≡ add_paths parts_of false parent id paths groups
  unfolding add_children add_paths
  add_children-add_paths parent id [] groups = refl
  add_children-add_paths parent id (p ∷ ps) groups =
      rw (add_child_at-add_path parent id p groups)
        (add_children-add_paths parent id ps (add_path parts_of false parent id p groups))

  collect_children-collect :
      (parent : List String) (channels : List PathChannel) (groups : List PathGroup)
      → collect_children parts_of category_id before kind parent channels groups
        ≡ collect parts_of false parent channels groups
  unfolding collect_children collect
  collect_children-collect parent [] groups = refl
  collect_children-collect parent (c ∷ cs) groups = elim (Bool-cases c.is_included) [
    | inl e ↦
        rw (e, add_children-add_paths parent c.id c.paths groups)
          (collect_children-collect parent cs (add_paths parts_of false parent c.id c.paths groups))
    | inr e ↦ rw e (collect_children-collect parent cs groups)
  ]

  -- The two routines that list the categories right below a path give the same categories: the
  -- loop over all parts of a path adds what the loop from the parent on adds.
  pub child_categories_from_channel_paths_lem :
      (parent : String) (channels : List PathChannel)
      → child_categories_from_channel_paths parts_of category_id before kind parent channels
        ≡ categories_from_channel_paths parts_of category_id before kind parent channels false
  unfolding child_categories_from_channel_paths categories_from_channel_paths
  child_categories_from_channel_paths_lem parent channels =
      ap (sorted_categories parts_of category_id before kind)
        (collect_children-collect (parent_parts parts_of parent) channels [])
