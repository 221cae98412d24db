-- ===== src/Listings/Merge.antt =====
-- What a window of the guide does to the programs that are loaded.
use silo_plugin_dispatcharr.Base.{
  ℕ, String, ◌≡◌, refl, sym, ◌∙◌, ◌||◌, Option, none, some, List, [], ◌∷◌, ◌++◌, map, arith,
  if◌then◌else◌, filter, All, string_eq, nat_eq, ◌==◌, contains, IsDistinct,
}
use mathlib.Core.Path.{subst}
use silo_plugin_dispatcharr.Listings.State.{
  Program, Entry, put, add_all, is_kept, guide_program_key, merge_guide_window_programs,
}

module _ (number_text : ℕ → String) where
  abbrev pub key : Program → String
  key = guide_program_key number_text

  -- The last of the programs with a key.
  abbrev pub last_with : String → List Program → Option Program
  last_with k [] = none
  last_with k (p ∷ ps) = elim (last_with k ps) [
    | some q ↦ some q
    | none ↦ if key p == k then some p else none
  ]

  -- The first of the programs with a key.
  abbrev pub program_with : String → List Program → Option Program
  program_with k [] = none
  program_with k (p ∷ ps) = if key p == k then some p else program_with k ps

  abbrev pub keys : List Program → List String
  keys ps = map key ps

  abbrev IsKeyed : List Entry → Type 0
  IsKeyed es = All (λ e. e.0 ≡ key e.1) es

  abbrev entry_with : String → List Entry → Option Program
  entry_with k [] = none
  entry_with k (e ∷ es) = if e.0 == k then some e.1 else entry_with k es

  put-IsKeyed : (p : Program) (es : List Entry) → IsKeyed es → IsKeyed (put (key p) p es)
  unfolding put
  put-IsKeyed p [] h = (refl, tt)
  put-IsKeyed p (e ∷ es) h = ground (arith, put-IsKeyed p es)

  add_all-IsKeyed :
      (ps : List Program) (es : List Entry) → IsKeyed es → IsKeyed (add_all number_text ps es)
  unfolding add_all
  add_all-IsKeyed [] es h = h
  add_all-IsKeyed (p ∷ ps) es h = add_all-IsKeyed ps (put (key p) p es) (put-IsKeyed p es h)

  entry_with-put :
      (k j : String) (p : Program) (es : List Entry)
      → entry_with k (put j p es) ≡ (if j == k then some p else entry_with k es)
  unfolding put
  entry_with-put k j p [] = refl
  entry_with-put k j p (e ∷ es) = ground (
    arith,
    entry_with-put k j p es,
    string_eq.beq_iff e.0 j,
    string_eq.beq_iff e.0 k,
    string_eq.beq_iff j k,
  )

  entry_with-add_all :
      (k : String) (ps : List Program) (es : List Entry)
      → entry_with k (add_all number_text ps es) ≡ (elim (last_with k ps) as (λ _. Option Program) [
        | some q ↦ some q
        | none ↦ entry_with k es
      ])
  unfolding add_all
  entry_with-add_all k [] es = refl
  entry_with-add_all k (p ∷ ps) es =
      ground (arith, entry_with-add_all k ps (put (key p) p es), entry_with-put k (key p) p es)

  program_with-map :
      (k : String) (es : List Entry)
      → IsKeyed es
      → program_with k (map (λ e. e.1) es) ≡ entry_with k es
  program_with-map k [] h = refl
  program_with-map k (e ∷ es) h = ground (arith, program_with-map k es h.1)

  last_with-append :
      (k : String) (xs ys : List Program)
      → last_with k (xs ++ ys) ≡ (elim (last_with k ys) as (λ _. Option Program) [
        | some q ↦ some q
        | none ↦ last_with k xs
      ])
  last_with-append k [] ys = ground arith
  last_with-append k (x ∷ xs) ys = ground (arith, last_with-append k xs ys)

  abbrev entry_keys : List Entry → List String
  entry_keys es = map (λ e. e.0) es

  put-contains :
      (k j : String) (p : Program) (es : List Entry)
      → contains (entry_keys (put j p es)) k ≡ (contains (entry_keys es) k || j == k)
  unfolding put
  put-contains k j p [] = ground arith
  put-contains k j p (e ∷ es) = ground (
    arith,
    put-contains k j p es,
    string_eq.beq_iff e.0 j,
    string_eq.beq_iff e.0 k,
    string_eq.beq_iff j k,
  )

  put-IsDistinct :
      (j : String) (p : Program) (es : List Entry)
      → IsDistinct (entry_keys es)
      → IsDistinct (entry_keys (put j p es))
  unfolding put
  put-IsDistinct j p [] h = (refl, tt)
  put-IsDistinct j p (e ∷ es) h = ground (
    arith,
    put-IsDistinct j p es h.1,
    put-contains e.0 j p es,
    string_eq.beq_iff e.0 j,
    string_eq.beq_iff j e.0,
  )

  add_all-IsDistinct :
      (ps : List Program) (es : List Entry)
      → IsDistinct (entry_keys es)
      → IsDistinct (entry_keys (add_all number_text ps es))
  unfolding add_all
  add_all-IsDistinct [] es h = h
  add_all-IsDistinct (p ∷ ps) es h =
      add_all-IsDistinct ps (put (key p) p es) (put-IsDistinct (key p) p es h)

  keys-map : (es : List Entry) → IsKeyed es → keys (map (λ e. e.1) es) ≡ entry_keys es
  keys-map [] h = refl
  keys-map (e ∷ es) h = ground (arith, keys-map es h.1)

  module _ (now start end : ℕ) (existing fresh : List Program) where
    abbrev pub merged : List Program
    merged = merge_guide_window_programs number_text now existing fresh start end

    abbrev merged_entries : List Entry
    merged_entries =
        add_all number_text fresh (add_all number_text (filter (is_kept now start end) existing) [])

    merged_entries-IsKeyed : IsKeyed merged_entries
    merged_entries-IsKeyed =
        add_all-IsKeyed fresh (add_all number_text (filter (is_kept now start end) existing) [])
          (add_all-IsKeyed (filter (is_kept now start end) existing) [] tt)

    -- The programs after a window of the guide is read have distinct keys, and for each key they
    -- have the last program with that key among the loaded ones that are kept (neither long over
    -- nor in the window) followed by the ones of the window.
    pub merge_guide_window_programs_lem :
        IsDistinct (keys merged)
        × ((k : String)
            → program_with k merged
              ≡ last_with k (filter (is_kept now start end) existing ++ fresh))
    unfolding merge_guide_window_programs
    merge_guide_window_programs_lem = (
      subst IsDistinct (sym (keys-map merged_entries merged_entries-IsKeyed)) (
          add_all-IsDistinct fresh
            (add_all number_text (filter (is_kept now start end) existing) [])
            (add_all-IsDistinct (filter (is_kept now start end) existing) [] tt)),
      λ k.
          program_with-map k merged_entries merged_entries-IsKeyed
          ∙ ground (
            arith,
            entry_with-add_all k fresh
                (add_all number_text (filter (is_kept now start end) existing) []),
            entry_with-add_all k (filter (is_kept now start end) existing) [],
            last_with-append k (filter (is_kept now start end) existing) fresh,
          ),
    )
