-- ===== src/Prefs/Lists/Before.antt =====
-- Which of two identifiers stands first in a merged order of favourites, by the three raw lists.
use silo_plugin_dispatcharr.Base.{
  String, ◌≡◌, refl, sym, ◌∙◌, ◌≢◌, inl, inr, Bool, true, false, ◌&&◌, ◌||◌, not, some, List, [],
  ◌∷◌, ◌++◌, arith, if◌then◌else◌, Bool-cases, filter, string_eq, nat_eq, ◌==◌, contains,
  contains-filter,
}
use silo_plugin_dispatcharr.Prefs.Lists.{
  merge_prefs_list, merge_ids, added_ids, kept_ids, same_order,
}
use silo_plugin_dispatcharr.Prefs.Lists.Laws.{merged_or_restored, merged_both}
use mathlib.Core.Path.{subst}
use silo_plugin_dispatcharr.Ids.{unique_ids, contains-unique_ids}
use silo_plugin_dispatcharr.Ids.Before.{
  is_before, is_before-filter, is_before-append, is_before-unique_ids,
}
use silo_plugin_dispatcharr.Prefs.Json.{
  json_eq, prefs_value_equal_self, of_strings, arr, prefs_value_equal,
}

-- Two lists of identifiers are alike, one by one.
abbrev pub same_ids : List String → List String → Bool
same_ids [] [] = true
same_ids (x ∷ xs) (y ∷ ys) = x == y && same_ids xs ys
same_ids _ _ = false

-- What two lists share has one order in both.
abbrev pub is_order_kept : List String → List String → Bool
is_order_kept xs ys =
    let one = unique_ids xs in
    let other = unique_ids ys in
    same_ids (filter (contains other) one) (filter (contains one) other)

of_strings-inj : (xs ys : List String) → of_strings xs ≡ of_strings ys → same_ids xs ys ≡ true
of_strings-inj [] [] e = refl
of_strings-inj [] (y ∷ ys) e = cc
of_strings-inj (x ∷ xs) [] e = cc
of_strings-inj (x ∷ xs) (y ∷ ys) e = ground (arith, of_strings-inj xs ys, string_eq.beq_iff x y)

same_ids-eq : (xs ys : List String) → same_ids xs ys ≡ true → xs ≡ ys
same_ids-eq [] [] e = refl
same_ids-eq [] (y ∷ ys) e = cc
same_ids-eq (x ∷ xs) [] e = cc
same_ids-eq (x ∷ xs) (y ∷ ys) e = ground (arith, same_ids-eq xs ys, string_eq.beq_iff x y)

-- The comparison of the code, on printed lists.
printed_equal :
    (xs ys : List String)
    → prefs_value_equal (some (arr (of_strings xs))) (some (arr (of_strings ys))) ≡ same_ids xs ys
unfolding prefs_value_equal
printed_equal xs ys = elim (Bool-cases (same_ids xs ys)) [
  | inl e ↦
      subst
        (λ zs. prefs_value_equal (some (arr (of_strings xs))) (some (arr (of_strings zs))) ≡ true)
        (same_ids-eq xs ys e) (prefs_value_equal_self (some (arr (of_strings xs))))
      ∙ sym e
  | inr e ↦ elim (Bool-cases (arr (of_strings xs) == arr (of_strings ys))) [
    | inl h ↦
        let same = (json_eq.beq_iff (arr (of_strings xs)) (arr (of_strings ys))).0 h in
        ground (arith, of_strings-inj xs ys)
    | inr h ↦ h ∙ sym e
  ]
]

-- First the identifiers of one list, in its order, then the others, in the order of another.
abbrev pub is_before_by : String → String → List String → List String → Bool
is_before_by u v one other =
    if contains one u
    then if contains one v then is_before u v one else true
    else if contains one v
    then false
    else is_before u v other

module _ (remote baseline local : List String) (u v : String) (u_ne : u ≢ "") (v_ne : v ≢ "")
    (ne : u ≢ v) where
  is_before-merge_ids_kept :
      same_order baseline local ≡ true
      → merged_both (contains remote u) (contains baseline u) (contains local u) ≡ true
      → merged_both (contains remote v) (contains baseline v) (contains local v) ≡ true
      → is_before u v (merge_ids true remote baseline local) ≡ is_before_by u v remote local
  unfolding merge_ids
  is_before-merge_ids_kept e hu hv =
      let kept = kept_ids remote baseline local in
      let added = added_ids baseline local in
      rw (e, is_before-unique_ids u v ne (kept ++ added) u_ne v_ne)
        (rw (is_before-append u v ne kept added) (
          ground (
            arith,
            is_before-filter u v ne (λ x. not (contains baseline x) || contains local x) remote,
            is_before-filter u v ne (λ x. not (contains baseline x)) local,
            contains-filter (λ x. not (contains baseline x) || contains local x) remote u,
            contains-filter (λ x. not (contains baseline x) || contains local x) remote v,
            contains-filter (λ x. not (contains baseline x)) local u,
            contains-filter (λ x. not (contains baseline x)) local v,
          )))

  is_before-merge_ids_reordered :
      same_order baseline local ≡ false
      → merged_or_restored (contains remote u) (contains baseline u) (contains local u) ≡ true
      → merged_or_restored (contains remote v) (contains baseline v) (contains local v) ≡ true
      → is_before u v (merge_ids true remote baseline local) ≡ is_before_by u v local remote
  unfolding merge_ids
  is_before-merge_ids_reordered e hu hv =
      let kept = kept_ids remote baseline local in
      rw (e, is_before-unique_ids u v ne (local ++ kept) u_ne v_ne)
        (rw (is_before-append u v ne local kept) (
          ground (
            arith,
            is_before-filter u v ne (λ x. not (contains baseline x) || contains local x) remote,
            contains-filter (λ x. not (contains baseline x) || contains local x) remote u,
            contains-filter (λ x. not (contains baseline x) || contains local x) remote v,
          )))

module _ (remote baseline local : List String) where
  -- Whether the merge of membership keeps an identifier.
  abbrev pub is_merged : String → Bool
  is_merged x =
      if is_order_kept local baseline
      then merged_both (contains remote x) (contains baseline x) (contains local x)
      else merged_or_restored (contains remote x) (contains baseline x) (contains local x)

  module _ (u v : String) (u_ne : u ≢ "") (v_ne : v ≢ "") (ne : u ≢ v) where
    is_before_by-unique_ids :
        (one other : List String)
        → is_before_by u v (unique_ids one) (unique_ids other) ≡ is_before_by u v one other
    is_before_by-unique_ids one other = ground (
      arith,
      contains-unique_ids one u,
      contains-unique_ids one v,
      is_before-unique_ids u v ne one u_ne v_ne,
      is_before-unique_ids u v ne other u_ne v_ne,
      string_eq.beq_iff u "",
      string_eq.beq_iff v "",
    )

    contains-unique_ids_self :
        (xs : List String)
        → (contains (unique_ids xs) u ≡ contains xs u)
          × (contains (unique_ids xs) v ≡ contains xs v)
    contains-unique_ids_self xs = ground (
      arith,
      contains-unique_ids xs u,
      contains-unique_ids xs v,
      string_eq.beq_iff u "",
      string_eq.beq_iff v "",
    )

    -- Of two different identifiers that the merge of membership keeps, neither of them empty,
    -- which stands first in the merged order of favourites, and that both are there: when what
    -- this tab shares with its baseline has one order in both, the stored identifiers are first,
    -- in the stored order, then the others in the order of this tab; when it does not, the
    -- identifiers of this tab are first, in its order, then the others in the stored order. The
    -- order of a raw list is that of first occurrences.
    pub is_before-merge_prefs_list :
        is_merged u ≡ true
        → is_merged v ≡ true
        → is_before u v (merge_prefs_list "favoriteOrder" remote baseline local) ≡ (
            if is_order_kept local baseline
            then is_before_by u v remote local
            else is_before_by u v local remote)
    unfolding merge_prefs_list
    is_before-merge_prefs_list hu hv =
        let r = unique_ids remote in
        let b = unique_ids baseline in
        let l = unique_ids local in
        let same : (same_order b l ≡ is_order_kept local baseline) =
          printed_equal (filter (contains b) l) (filter (contains l) b) in
        ground (
          arith,
          contains-unique_ids_self remote,
          contains-unique_ids_self baseline,
          contains-unique_ids_self local,
          is_before-merge_ids_kept r b l u v u_ne v_ne ne,
          is_before-merge_ids_reordered r b l u v u_ne v_ne ne,
          is_before_by-unique_ids remote local,
          is_before_by-unique_ids local remote,
        )
