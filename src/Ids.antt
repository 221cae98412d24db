-- ===== src/Ids.antt =====
-- internal/plugin/ui/core.js: `uniqueIDs`, on values that are already texts. The names that
-- every JavaScript object inherits, such as "constructor", are not treated apart.
pub mod Before
use silo_plugin_dispatcharr.Base.{
  ℕ, zero, suc, ◌+◌, ◌-◌, ◌*◌, ◌/◌, ◌%◌, ◌≤◌, ◌<◌, min, max, String, ◌≡◌, refl, sym, ap, ◌∙◌, ◌≢◌,
  ◌↔◌, ◌⊎◌, inl, inr, Bool, true, false, ◌&&◌, ◌||◌, not, Option, none, some, List, [], ◌∷◌, ◌++◌,
  map, foldl, arith, ltb, leb, nat_beq, if◌then◌else◌, ltb→lt, lt→ltb, leb→le, le→leb, nat_beq_iff,
  Bool-cases, Option-cases, is_some, length, get_elem?, take, drop, filter, take_last,
  length-append, length-take, length-drop, length-take_last, length-filter-le, All, All-append,
  All-take, All-drop, All-filter, filter-ext, map-take, Eq, string_eq, nat_eq, ◌==◌, beq_refl,
  beq_of_ne, beq_sym, contains, IsDistinct, contains-append, contains-filter, filter-IsDistinct,
  contains-take-false, take-IsDistinct, All-contains, insert_by, sort_onto, sort_by, IsSorted,
  sort_onto-append, sort_by-append, take-insert_by-take, sort_by-All, IsWeakOrder,
  insert_by-IsSorted, sort_by-IsSorted, take-IsSorted, sort_by_sorted, contains-map-sort_by,
  sort_by-IsDistinct,
}

-- The loop, with the identifiers seen so far.
unfoldable unique_from : List String → List String → List String
unique_from seen [] = []
unique_from seen (value ∷ rest) =
    let skip = value == "" || contains seen value in
    let result = unique_from (if skip then seen else value ∷ seen) rest in
    if skip then result else value ∷ result

unfoldable pub unique_ids : List String → List String
unfolding unique_from
unique_ids values = unique_from [] values

contains-unique_from :
    (seen xs : List String) (a : String)
    → contains (unique_from seen xs) a ≡ (not (a == "") && not (contains seen a) && contains xs a)
unfolding unique_from
contains-unique_from seen [] a = ground arith
contains-unique_from seen (x ∷ xs) a =
    let skip = x == "" || contains seen x in
    ground (
      arith,
      contains-unique_from (if skip then seen else x ∷ seen) xs a,
      string_eq.beq_iff x "",
      string_eq.beq_iff x a,
      string_eq.beq_iff a "",
    )

unique_from-IsDistinct : (seen xs : List String) → IsDistinct (unique_from seen xs)
unfolding unique_from
unique_from-IsDistinct seen [] = tt
unique_from-IsDistinct seen (x ∷ xs) =
    let skip = x == "" || contains seen x in
    let seen' = if skip then seen else x ∷ seen in
    ground (
      arith,
      unique_from-IsDistinct seen' xs,
      contains-unique_from seen' xs x,
      string_eq.beq_iff x x,
    )

-- `uniqueIDs` keeps exactly the identifiers that are not empty.
pub contains-unique_ids :
    (xs : List String) (a : String) → contains (unique_ids xs) a ≡ (not (a == "") && contains xs a)
unfolding unique_ids
contains-unique_ids xs a = ground (arith, contains-unique_from [] xs a)

pub unique_ids-IsDistinct : (xs : List String) → IsDistinct (unique_ids xs)
unfolding unique_ids
unique_ids-IsDistinct xs = unique_from-IsDistinct [] xs

sample : unique_ids ("a" ∷ "" ∷ "b" ∷ "a" ∷ []) ≡ "a" ∷ "b" ∷ []
unfolding unique_ids
sample = refl
