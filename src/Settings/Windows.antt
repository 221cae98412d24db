-- ===== src/Settings/Windows.antt =====
-- The categories of the rules, and the windows of their series.
use silo_plugin_dispatcharr.Base.{
  String, ◌≡◌, refl, ap, inl, inr, Bool, true, false, ◌||◌, Option, none, some, List, [], ◌∷◌, ◌++◌,
  map, arith, Bool-cases, All, string_eq, nat_eq, ◌==◌, beq_sym, contains, IsDistinct, sort_by,
  sort_by-All, sort_by-IsDistinct,
}
use silo_plugin_dispatcharr.Prefs.Json.{Json}
use silo_plugin_dispatcharr.Settings.State.{Numbers, clamp_number-IsWithin}
use silo_plugin_dispatcharr.Settings.Keywords.{
  Texts, Rule, Rules, default_rules, read_rules, rule_id, merge_rule, new_rule, put_rule, add_rules,
  without_window, by_name, normalize_event_keyword_rows, minutes_or_60, nonzero_or,
}
use silo_plugin_dispatcharr.Settings.Keep.{lowered, normalize_keyword_texts-IsDistinct}

module _ (t : Texts) (n : Numbers) where
  abbrev pub ids : Rules t n → List String
  ids rs = map (λ r. r.category_id) rs

  abbrev pub IsWindow : Bool → Option n.Number → Type 0
  IsWindow false w = w ≡ none
  IsWindow true none = ⊥
  IsWindow true (some w) = (n.le (n.of 15) w ≡ true) × (n.le w (n.of 360) ≡ true)

  -- While the rows are added, the rules of other categories have the window 0.
  abbrev IsOpen : Rule n.Number → Type 0
  IsOpen r =
      (r.event_series ≡ true → IsWindow true r.group_window) × IsDistinct (lowered t r.keywords)

  abbrev pub IsClosed : Rule n.Number → Type 0
  IsClosed r = IsWindow r.event_series r.group_window × IsDistinct (lowered t r.keywords)

  merge_rule-IsOpen : (e row : Rule n.Number) → IsOpen (merge_rule t n e row)
  unfolding merge_rule
  merge_rule-IsOpen e row = (
    λ s. rw s (
        clamp_number-IsWithin n 15 360
          (minutes_or_60 t n (nonzero_or t n row.group_window e.group_window)) (omega arith)),
    normalize_keyword_texts-IsDistinct t (e.keywords ++ row.keywords),
  )

  put_rule-IsOpen :
      (id : String) (row : Rule n.Number) (rs : Rules t n)
      → All IsOpen rs
      → All IsOpen (put_rule t n id row rs)
  unfolding put_rule
  put_rule-IsOpen id row [] h = (merge_rule-IsOpen (new_rule t n id row) row, tt)
  put_rule-IsOpen id row (r ∷ rs) h = elim (Bool-cases (r.category_id == id)) [
    | inl e ↦ rw e (merge_rule-IsOpen r row, h.1)
    | inr e ↦ rw e (h.0, put_rule-IsOpen id row rs h.1)
  ]

  contains-put_rule :
      (id : String) (row : Rule n.Number) (rs : Rules t n) (k : String)
      → contains (ids (put_rule t n id row rs)) k ≡ (contains (ids rs) k || id == k)
  unfolding put_rule merge_rule
  contains-put_rule id row [] k = ground arith
  contains-put_rule id row (r ∷ rs) k =
      ground (arith, contains-put_rule id row rs k, string_eq.beq_iff r.category_id id)

  put_rule-IsDistinct :
      (id : String) (row : Rule n.Number) (rs : Rules t n)
      → IsDistinct (ids rs)
      → IsDistinct (ids (put_rule t n id row rs))
  unfolding put_rule merge_rule
  put_rule-IsDistinct id row [] h = (refl, tt)
  put_rule-IsDistinct id row (r ∷ rs) h = ground (
    arith,
    put_rule-IsDistinct id row rs,
    contains-put_rule id row rs r.category_id,
    beq_sym r.category_id id,
  )

  add_rules-IsOpen :
      (by_id rows : Rules t n)
      → All IsOpen by_id
      → IsDistinct (ids by_id)
      → All IsOpen (add_rules t n by_id rows) × IsDistinct (ids (add_rules t n by_id rows))
  unfolding add_rules
  add_rules-IsOpen by_id [] h d = (h, d)
  add_rules-IsOpen by_id (row ∷ rows) h d = elim (Bool-cases (rule_id t n row == "")) [
    | inl e ↦ rw e (add_rules-IsOpen by_id rows h d)
    | inr e ↦ rw e (
        add_rules-IsOpen (put_rule t n (rule_id t n row) row by_id) rows
          (put_rule-IsOpen (rule_id t n row) row by_id h)
          (put_rule-IsDistinct (rule_id t n row) row by_id d))
  ]

  ids-without_window : (rs : Rules t n) → ids (map (without_window t n) rs) ≡ ids rs
  ids-without_window [] = refl
  ids-without_window (r ∷ rs) = elim (Bool-cases r.event_series) [
    | inl e ↦ rw e (ap (◌∷◌ r.category_id) (ids-without_window rs))
    | inr e ↦ rw e (ap (◌∷◌ r.category_id) (ids-without_window rs))
  ]

  without_window-IsClosed :
      (rs : Rules t n) → All IsOpen rs → All IsClosed (map (without_window t n) rs)
  without_window-IsClosed [] h = tt
  without_window-IsClosed (r ∷ rs) h = elim (Bool-cases r.event_series) [
    | inl e ↦ rw e ((h.0.0 e, h.0.1), without_window-IsClosed rs h.1)
    | inr e ↦ rw e ((refl, h.0.1), without_window-IsClosed rs h.1)
  ]

  -- The rules.
  pub normalize_event_keyword_rows-IsClosed :
      (before : String → String → Bool) (value : Option Json)
      → IsDistinct (ids (normalize_event_keyword_rows t n before value))
        × All IsClosed (normalize_event_keyword_rows t n before value)
  unfolding normalize_event_keyword_rows
  normalize_event_keyword_rows-IsClosed before value =
      let by_id = add_rules t n [] (default_rules t n ++ read_rules t n value) in
      let h = add_rules-IsOpen [] (default_rules t n ++ read_rules t n value) tt tt in
      let sorted = sort_by (by_name t n before) by_id in
      (
        rw (ids-without_window sorted)
            (sort_by-IsDistinct (by_name t n before) (λ r. r.category_id) by_id h.1),
        without_window-IsClosed sorted (sort_by-All (by_name t n before) IsOpen by_id h.0),
      )
