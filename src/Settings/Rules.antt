-- ===== src/Settings/Rules.antt =====
-- The rules by category after rows are added to them.
use silo_plugin_dispatcharr.Base.{
  String, ◌≡◌, refl, ap, ◌∙◌, inl, inr, Bool, true, false, ◌&&◌, ◌||◌, not, Option, List, [], ◌∷◌,
  ◌++◌, map, arith, Bool-cases, filter, All, All-append, string_eq, nat_eq, ◌==◌, contains,
  contains-append, insert_by, sort_onto, sort_by,
}
use silo_plugin_dispatcharr.Settings.State.{property, items, Numbers}
use silo_plugin_dispatcharr.Prefs.Json.{Json}
use silo_plugin_dispatcharr.Settings.Keywords.{
  is_rule_row, default_event_keyword_rules, read_rules, without_window, by_name, default_rules,
  read_rule, add_rules, normalize_event_keyword_rows, Texts, Rule, Rules, rule_id, merge_rule,
  new_rule, put_rule,
}
use silo_plugin_dispatcharr.Settings.Keep.{
  normalize_keyword_list-All, IsSplitting, IsPiece, lowered, normalize_keyword_texts-All,
  contains-normalize_keyword_texts, lowered-append,
}

-- Two laws of Booleans: a row without a category, and a row with one.
skipped :
    (l i k j c m : Bool)
    → (j ≡ true → i ≡ true)
    → (l || (not i && not k && m)) ≡ (l || (not i && not k && ((j && c) || m)))
skipped l i k j c m h = ground arith

merged :
    (l i k j c m : Bool)
    → (j ≡ true → i ≡ false)
    → ((l || (j && not k && c)) || (not i && not k && m))
      ≡ (l || (not i && not k && ((j && c) || m)))
merged l i k j c m h = ground arith

module _ (t : Texts) (n : Numbers) where
  -- Whether a rule of a category has a keyword, but for case, and whether a row names it.
  abbrev pub listed : String → String → Rules t n → Bool
  listed id k [] = false
  listed id k (r ∷ rs) =
      (r.category_id == id && contains (lowered t r.keywords) k) || listed id k rs

  abbrev pub named : String → String → Rules t n → Bool
  named id k [] = false
  named id k (row ∷ rows) =
      (rule_id t n row == id && contains (lowered t row.keywords) k) || named id k rows

  abbrev HasPieces : Rule n.Number → Type 0
  HasPieces r = All (IsPiece t) r.keywords

  -- Its keywords are pieces, and none of them is empty.
  abbrev IsRule : Rule n.Number → Type 0
  IsRule r = HasPieces r × (contains (lowered t r.keywords) "" ≡ false)

  merge_rule-pieces :
      (e row : Rule n.Number)
      → HasPieces e
      → HasPieces row
      → All (IsPiece t) (e.keywords ++ row.keywords)
  merge_rule-pieces e row he hr = All-append (IsPiece t) e.keywords row.keywords he hr

  merge_rule-contains :
      (e row : Rule n.Number) (k : String)
      → HasPieces e
      → HasPieces row
      → contains (lowered t (merge_rule t n e row).keywords) k ≡ (
          not (k == "")
          && (contains (lowered t e.keywords) k || contains (lowered t row.keywords) k))
  unfolding merge_rule
  merge_rule-contains e row k he hr =
      contains-normalize_keyword_texts t (e.keywords ++ row.keywords) k
        (merge_rule-pieces e row he hr)
      ∙ rw (lowered-append t e.keywords row.keywords)
          (rw (contains-append (lowered t e.keywords) (lowered t row.keywords) k) refl)

  merge_rule-IsRule :
      (e row : Rule n.Number) → HasPieces e → HasPieces row → IsRule (merge_rule t n e row)
  unfolding merge_rule
  merge_rule-IsRule e row he hr = (
    normalize_keyword_texts-All t (e.keywords ++ row.keywords) (merge_rule-pieces e row he hr),
    merge_rule-contains e row "" he hr,
  )

  merge_rule-category_id :
      (e row : Rule n.Number) → (merge_rule t n e row).category_id ≡ e.category_id
  unfolding merge_rule
  merge_rule-category_id e row = refl

  put_rule-IsRule :
      (id : String) (row : Rule n.Number) (rs : Rules t n)
      → HasPieces row
      → All IsRule rs
      → All IsRule (put_rule t n id row rs)
  unfolding put_rule
  put_rule-IsRule id row [] hr h = (merge_rule-IsRule (new_rule t n id row) row tt hr, tt)
  put_rule-IsRule id row (r ∷ rs) hr h = elim (Bool-cases (r.category_id == id)) [
    | inl e ↦ rw e (merge_rule-IsRule r row h.0.0 hr, h.1)
    | inr e ↦ rw e (h.0, put_rule-IsRule id row rs hr h.1)
  ]

  listed-put_rule :
      (j : String) (row : Rule n.Number) (rs : Rules t n) (id k : String)
      → HasPieces row
      → All IsRule rs
      → listed id k (put_rule t n j row rs)
        ≡ (listed id k rs || (j == id && not (k == "") && contains (lowered t row.keywords) k))
  unfolding put_rule
  listed-put_rule j row [] id k hr h =
      let m = merge_rule t n (new_rule t n j row) row in
      ground (
        arith,
        merge_rule-contains (new_rule t n j row) row k tt hr,
        merge_rule-category_id (new_rule t n j row) row,
      )
  listed-put_rule j row (r ∷ rs) id k hr h = ground (
    arith,
    merge_rule-contains r row k h.0.0 hr,
    merge_rule-category_id r row,
    listed-put_rule j row rs id k hr h.1,
    string_eq.beq_iff r.category_id j,
    string_eq.beq_iff k "",
    h.0.1,
  )

  add_rules-IsRule :
      (by_id rows : Rules t n)
      → All IsRule by_id
      → All HasPieces rows
      → All IsRule (add_rules t n by_id rows)
  unfolding add_rules
  add_rules-IsRule by_id [] h hr = h
  add_rules-IsRule by_id (row ∷ rows) h hr = elim (Bool-cases (rule_id t n row == "")) [
    | inl e ↦ rw e (add_rules-IsRule by_id rows h hr.1)
    | inr e ↦ rw e (
        add_rules-IsRule (put_rule t n (rule_id t n row) row by_id) rows
          (put_rule-IsRule (rule_id t n row) row by_id hr.0 h) hr.1)
  ]

  listed-add_rules :
      (by_id rows : Rules t n) (id k : String)
      → All IsRule by_id
      → All HasPieces rows
      → listed id k (add_rules t n by_id rows)
        ≡ (listed id k by_id || (not (id == "") && not (k == "") && named id k rows))
  unfolding add_rules
  listed-add_rules by_id [] id k h hr = ground arith
  listed-add_rules by_id (row ∷ rows) id k h hr =
      let j = rule_id t n row in
      let c = contains (lowered t row.keywords) k in
      let m = named id k rows in
      elim (Bool-cases (j == "")) [
        | inl e ↦ rw e (
            listed-add_rules by_id rows id k h hr.1
            ∙ skipped (listed id k by_id) (id == "") (k == "") (j == id) c m (λ s.
              ground
                (arith, string_eq.beq_iff j id, string_eq.beq_iff j "", string_eq.beq_iff id "")))
        | inr e ↦ rw e (
            listed-add_rules (put_rule t n j row by_id) rows id k
              (put_rule-IsRule j row by_id hr.0 h) hr.1
            ∙ ap (λ b. b || (not (id == "") && not (k == "") && m))
                (listed-put_rule j row by_id id k hr.0 h)
            ∙ merged (listed id k by_id) (id == "") (k == "") (j == id) c m (λ s.
              ground
                (arith, string_eq.beq_iff j id, string_eq.beq_iff j "", string_eq.beq_iff id "")))
      ]

  module _ (before : Rule n.Number → Rule n.Number → Bool) where
    listed-insert_by :
        (id k : String) (r : Rule n.Number) (rs : Rules t n)
        → listed id k (insert_by before r rs) ≡ listed id k (r ∷ rs)
    unfolding insert_by
    listed-insert_by id k r [] = refl
    listed-insert_by id k r (s ∷ ss) = ground (arith, listed-insert_by id k r ss)

    listed-sort_onto :
        (id k : String) (sorted rs : Rules t n)
        → listed id k (sort_onto before sorted rs) ≡ (listed id k sorted || listed id k rs)
    unfolding sort_onto
    listed-sort_onto id k sorted [] = ground arith
    listed-sort_onto id k sorted (r ∷ rs) = ground (
      arith,
      listed-sort_onto id k (insert_by before r sorted) rs,
      listed-insert_by id k r sorted,
    )

    listed-sort_by :
        (id k : String) (rs : Rules t n) → listed id k (sort_by before rs) ≡ listed id k rs
    unfolding sort_by
    listed-sort_by id k rs = listed-sort_onto id k [] rs

  listed-without_window :
      (id k : String) (rs : Rules t n) → listed id k (map (without_window t n) rs) ≡ listed id k rs
  listed-without_window id k [] = refl
  listed-without_window id k (r ∷ rs) = ground (arith, listed-without_window id k rs)

  read_rules-pieces :
      IsSplitting t
      → (rows : List Json) → All HasPieces (filter (is_rule_row t n) (map (read_rule t n) rows))
  unfolding read_rule
  read_rules-pieces law [] = tt
  read_rules-pieces law (row ∷ rows) = elim (Bool-cases (is_rule_row t n (read_rule t n row))) [
    | inl e ↦
        rw e
          (normalize_keyword_list-All t law (property "keywords" row), read_rules-pieces law rows)
    | inr e ↦ rw e (read_rules-pieces law rows)
  ]

  rows-pieces :
      IsSplitting t
      → All (λ r. All (IsPiece t) r.2) default_event_keyword_rules
      → (value : Option Json) → All HasPieces (default_rules t n ++ read_rules t n value)
  unfolding default_rules read_rules
  rows-pieces law d value =
      All-append HasPieces (default_rules t n) (read_rules t n value) d
        (read_rules-pieces law (items value))

  -- When what a split gives, trimmed, is not split or trimmed further, and neither are the
  -- default keywords: a rule of a category has a keyword, but for case, exactly when both are not
  -- empty and a default row or a stored one that is kept names it for that category.
  pub listed-normalize_event_keyword_rows :
      (before : String → String → Bool) (value : Option Json) (id k : String)
      → IsSplitting t
      → All (λ r. All (IsPiece t) r.2) default_event_keyword_rules
      → listed id k (normalize_event_keyword_rows t n before value) ≡ (
          not (id == "") && not (k == "") && named id k (default_rules t n ++ read_rules t n value))
  unfolding normalize_event_keyword_rows
  listed-normalize_event_keyword_rows before value id k law d =
      let rows = default_rules t n ++ read_rules t n value in
      listed-without_window id k (sort_by (by_name t n before) (add_rules t n [] rows))
      ∙ listed-sort_by (by_name t n before) id k (add_rules t n [] rows)
      ∙ listed-add_rules [] rows id k tt (rows-pieces law d value)
