-- ===== src/Selection/Passes.antt =====
-- `normalizeKeywordPasses` and `normalizeSavedLineups`. A field that the source leaves out is empty.
use silo_plugin_dispatcharr.Base.{
  ℕ, ◌+◌, ◌≤◌, String, ◌≡◌, refl, sym, Bool, true, false, ◌||◌, List, [], ◌∷◌, map, arith, nat_beq,
  if◌then◌else◌, length, take, length-take, map-take, string_eq, nat_eq, ◌==◌, contains, IsDistinct,
  take-IsDistinct,
}
use mathlib.Core.Path.{subst}
use Prim.Native.String.{◌++◌ as concat}

pub record Pass : Type 0 where
  pub id : String
  pub name : String
  pub keyword : String
  pub created_at : ℕ

pub record Lineup : Type 0 where
  pub id : String
  pub name : String
  pub category_id : String
  pub hide_final_groups : Bool

abbrev or_text : String → String → String
or_text a b = if a == "" then b else a

-- The language's `trim`, `lower`, the two replacements by patterns, and how a number prints.
module _ (trim lower slug strip : String → String) (number_text : ℕ → String) where
  -- The loop, with the keywords seen so far.
  unfoldable pub passes_from : ℕ → List String → List Pass → List Pass
  passes_from now seen [] = []
  passes_from now seen (p ∷ ps) =
      let keyword = trim (or_text p.keyword p.name) in
      let id = strip (or_text p.id (concat "keyword:" (slug (lower keyword)))) in
      let key = lower keyword in
      let skip = keyword == "" || id == "" || contains seen key in
      let rest = passes_from now (if skip then seen else key ∷ seen) ps in
      let pass : Pass = record {
        id = id;
        name = "";
        keyword = keyword;
        created_at = if nat_beq p.created_at 0 then now else p.created_at;
      } in
      if skip then rest else pass ∷ rest

  unfoldable pub normalize_keyword_passes : ℕ → List Pass → List Pass
  unfolding passes_from
  normalize_keyword_passes now value = take 24 (passes_from now [] value)

  abbrev pub lineup_id : ℕ → List String → Lineup → String
  lineup_id index ids l =
      let number = number_text (index + 1) in
      let named = or_text (trim l.id) (concat "lineup-" number) in
      if contains ids named then concat named (concat "-" number) else named

  -- The loop, with the index of the lineup and the identifiers and categories seen so far.
  unfoldable pub lineups_from : ℕ → List String → List String → List Lineup → List Lineup
  lineups_from index ids categories [] = []
  lineups_from index ids categories (l ∷ ls) =
      let category = trim l.category_id in
      let name = trim l.name in
      let id = lineup_id index ids l in
      let skip = category == "" || name == "" || contains categories category in
      let rest =
        lineups_from (index + 1) (if skip then ids else id ∷ ids)
          (if skip then categories else category ∷ categories) ls in
      let lineup : Lineup = record {
        id = id;
        name = name;
        category_id = category;
        hide_final_groups = l.hide_final_groups;
      } in
      if skip then rest else lineup ∷ rest

  unfoldable pub normalize_saved_lineups : List Lineup → List Lineup
  unfolding lineups_from
  normalize_saved_lineups value = take 24 (lineups_from 0 [] [] value)

  abbrev pub keys : List Pass → List String
  keys ps = map (λ p. lower p.keyword) ps

  abbrev pub categories_of : List Lineup → List String
  categories_of ls = map (λ l. l.category_id) ls

  passes_from-fresh :
      (now : ℕ) (seen : List String) (ps : List Pass) (k : String)
      → contains seen k ≡ true
      → contains (keys (passes_from now seen ps)) k ≡ false
  unfolding passes_from
  passes_from-fresh now seen [] k h = refl
  passes_from-fresh now seen (p ∷ ps) k h =
      let key = lower (trim (or_text p.keyword p.name)) in
      ground (
        arith,
        passes_from-fresh now seen ps k,
        passes_from-fresh now (key ∷ seen) ps k,
        string_eq.beq_iff key k,
      )

  passes_from-IsDistinct :
      (now : ℕ) (seen : List String) (ps : List Pass) → IsDistinct (keys (passes_from now seen ps))
  unfolding passes_from
  passes_from-IsDistinct now seen [] = tt
  passes_from-IsDistinct now seen (p ∷ ps) =
      let key = lower (trim (or_text p.keyword p.name)) in
      ground (
        arith,
        passes_from-IsDistinct now seen ps,
        passes_from-IsDistinct now (key ∷ seen) ps,
        passes_from-fresh now (key ∷ seen) ps key,
        string_eq.beq_iff key key,
      )

  lineups_from-fresh :
      (index : ℕ) (ids seen : List String) (ls : List Lineup) (k : String)
      → contains seen k ≡ true
      → contains (categories_of (lineups_from index ids seen ls)) k ≡ false
  unfolding lineups_from
  lineups_from-fresh index ids seen [] k h = refl
  lineups_from-fresh index ids seen (l ∷ ls) k h =
      let category = trim l.category_id in
      let id = lineup_id index ids l in
      ground (
        arith,
        lineups_from-fresh (index + 1) ids seen ls k,
        lineups_from-fresh (index + 1) (id ∷ ids) (category ∷ seen) ls k,
        string_eq.beq_iff category k,
      )

  lineups_from-IsDistinct :
      (index : ℕ) (ids seen : List String) (ls : List Lineup)
      → IsDistinct (categories_of (lineups_from index ids seen ls))
  unfolding lineups_from
  lineups_from-IsDistinct index ids seen [] = tt
  lineups_from-IsDistinct index ids seen (l ∷ ls) =
      let category = trim l.category_id in
      let id = lineup_id index ids l in
      ground (
        arith,
        lineups_from-IsDistinct (index + 1) ids seen ls,
        lineups_from-IsDistinct (index + 1) (id ∷ ids) (category ∷ seen) ls,
        lineups_from-fresh (index + 1) (id ∷ ids) (category ∷ seen) ls category,
        string_eq.beq_iff category category,
      )

  -- The normalised keyword passes have distinct keywords but for case, the normalised lineups
  -- have distinct groups, and there are at most 24 of each.
  pub normalize-IsDistinct :
      (now : ℕ) (passes : List Pass) (lineups : List Lineup)
      → IsDistinct (keys (normalize_keyword_passes now passes))
        × (length (normalize_keyword_passes now passes) ≤ 24)
        × IsDistinct (categories_of (normalize_saved_lineups lineups))
        × (length (normalize_saved_lineups lineups) ≤ 24)
  unfolding normalize_keyword_passes normalize_saved_lineups
  normalize-IsDistinct now passes lineups =
      let ps = passes_from now [] passes in
      let ls = lineups_from 0 [] [] lineups in
      (
        subst IsDistinct (sym (map-take (λ p. lower p.keyword) 24 ps))
            (take-IsDistinct 24 (keys ps) (passes_from-IsDistinct now [] passes)),
        omega (arith, length-take 24 ps),
        subst IsDistinct (sym (map-take (λ l. l.category_id) 24 ls))
            (take-IsDistinct 24 (categories_of ls) (lineups_from-IsDistinct 0 [] [] lineups)),
        omega (arith, length-take 24 ls),
      )
