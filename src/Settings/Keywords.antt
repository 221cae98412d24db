-- ===== src/Settings/Keywords.antt =====
-- `normalizeKeywordList`, `normalizeEventCategoryId`, `normalizeEventKeywordRows` and the default rows.
-- The rules by category that the code keeps in an object are the list of its entries, in the order
-- in which they were added.
use silo_plugin_dispatcharr.Base.{
  ℕ, String, Bool, false, ◌&&◌, ◌||◌, not, Option, none, some, List, [], ◌∷◌, ◌++◌, map, nat_beq,
  if◌then◌else◌, length, filter, string_eq, nat_eq, ◌==◌, contains, sort_by,
}
use silo_plugin_dispatcharr.Prefs.Json.{
  Json, null, bool, num, str, arr, obj, to_list, truthy, display,
}
use silo_plugin_dispatcharr.Settings.State.{
  Numbers, property, or_value, text_of, items, is_true, number_or, clamp_number,
}
use silo_plugin_dispatcharr.Settings.Unique.{keep_unseen}

-- A rule of a category, with the window of a series in minutes, undefined when the rule is none.
pub record Rule (Number : Type 0) : Type 0 where
  pub category_id : String
  pub category_name : String
  pub keywords : List String
  pub exclude_keywords : List String
  pub event_series : Bool
  pub group_window : Option Number

-- The default rows, by category.
abbrev pub default_event_keyword_rules : List (String × String × List String)
default_event_keyword_rules =
    (
      "awards",
      "Awards",
      "Academy Awards" ∷ "The Oscars" ∷ "Oscars" ∷ "Tony Awards" ∷ "The Tonys" ∷ "Golden Globes"
          ∷ "Grammy Awards" ∷ "Grammys" ∷ "Emmy Awards" ∷ "Emmys" ∷ "CMA Awards" ∷ "ACM Awards"
          ∷ "Billboard Music Awards" ∷ "American Music Awards" ∷ "BET Awards"
          ∷ "MTV Video Music Awards" ∷ "Critics Choice Awards" ∷ "SAG Awards" ∷ [],
    )
    ∷ (
      "civic",
      "Civic",
      "State of the Union" ∷ "Presidential Address" ∷ "Joint Session" ∷ "Inauguration"
          ∷ "Election Night" ∷ "Presidential Debate" ∷ [],
    )
    ∷ (
      "parades",
      "Parades",
      "Thanksgiving Day Parade" ∷ "Macy's Thanksgiving Day Parade" ∷ "Rose Parade"
          ∷ "Christmas Parade" ∷ [],
    )
    ∷ ("entertainment", "Entertainment", [])
    ∷ []

abbrev pub event_category_name : String → String
event_category_name id =
    if id == "awards"
    then "Awards"
    else if id == "civic"
    then "Civic"
    else if id == "parades"
    then "Parades"
    else if id == "entertainment"
    then "Entertainment"
    else if id == ""
    then "Events"
    else id

-- The language's `trim` and `toLowerCase`, the pattern that splits a text at commas and new lines,
-- the pattern that makes all but letters and digits blanks, the one that makes blanks hyphens, the
-- one that drops a leading "virtual", the first characters of a text, and whether a text starts
-- with another.
pub record Texts : Type 0 where
  pub trim : String → String
  pub lower : String → String
  pub split : String → List String
  pub blank : String → String
  pub hyphen : String → String
  pub without_virtual : String → String
  pub front : ℕ → String → String
  pub starts_with : String → String → Bool

abbrev pub flat_map {ℓ} : {A : Type ℓ} → (A → List String) → List A → List String
flat_map f [] = []
flat_map f (x ∷ xs) = f x ++ flat_map f xs

module _ (t : Texts) where
  -- The texts in a value that is an array, or a text.
  abbrev pub keyword_rows : Option Json → List String
  keyword_rows (some (arr xs)) = flat_map (λ item. t.split (text_of (some item))) (to_list xs)
  keyword_rows none = t.split ""
  keyword_rows (some null) = t.split ""
  keyword_rows (some (bool b)) = t.split (text_of (some (bool b)))
  keyword_rows (some (num s)) = t.split (text_of (some (num s)))
  keyword_rows (some (str s)) = t.split s
  keyword_rows (some (obj f)) = t.split (text_of (some (obj f)))

  unfoldable pub unique_keywords : List String → List String
  unfolding keep_unseen
  unique_keywords rows = keep_unseen (λ k. not (t.lower k == "")) t.lower [] (map t.trim rows)

  unfoldable pub normalize_keyword_list : Option Json → List String
  unfolding unique_keywords
  normalize_keyword_list value = unique_keywords (keyword_rows value)

  -- The same on an array of texts.
  unfoldable pub normalize_keyword_texts : List String → List String
  unfolding unique_keywords
  normalize_keyword_texts values = unique_keywords (flat_map t.split values)

  unfoldable pub normalize_event_category_id : String → String
  normalize_event_category_id value =
      let v = t.trim (t.lower (t.blank value)) in
      if v == "award"
      then "awards"
      else if v == "politics" || v == "political"
      then "civic"
      else if v == "parade"
      then "parades"
      else if v == "special" || v == "specials"
      then "entertainment"
      else t.hyphen v

  unfoldable pub is_sports_event_category_id : String → Bool
  unfolding normalize_event_category_id
  is_sports_event_category_id id =
      contains ("golf" ∷ "motor-racing" ∷ "combat-sports" ∷ "tennis" ∷ [])
        (normalize_event_category_id id)

  -- The texts of an object's field, or what stands behind `||`.
  abbrev pub name_or : Option Json → String → String
  name_or none d = d
  name_or (some v) d = if truthy v then display v else d

  module _ (n : Numbers) where
    abbrev pub Rules : Type 0
    Rules = List (Rule n.Number)

    abbrev pub nonzero_or : Option n.Number → Option n.Number → Option n.Number
    nonzero_or none y = y
    nonzero_or (some x) y = if n.same x (n.of 0) then y else some x

    -- `Number(x) || 60`
    abbrev pub minutes_or_60 : Option n.Number → n.Number
    minutes_or_60 none = n.of 60
    minutes_or_60 (some x) = if n.same x (n.of 0) then n.of 60 else x

    unfoldable pub default_rules : Rules
    default_rules =
        map
          (λ r. record {
            category_id = r.0;
            category_name = r.1;
            keywords = r.2;
            exclude_keywords = [];
            event_series = false;
            group_window = none;
          })
          default_event_keyword_rules

    unfoldable pub read_rule : Json → Rule n.Number
    unfolding normalize_event_category_id normalize_keyword_list clamp_number
    read_rule row =
        let id =
          normalize_event_category_id
            (text_of (or_value (property "categoryId" row) (property "categoryName" row))) in
        let series = is_true (property "eventSeries" row) in
        record {
          category_id = id;
          category_name = t.trim (name_or (property "categoryName" row) (event_category_name id));
          keywords = normalize_keyword_list (property "keywords" row);
          exclude_keywords = normalize_keyword_list (property "excludeKeywords" row);
          event_series = series;
          group_window = some (
              if series
              then clamp_number n 15 360 (number_or n (property "groupWindowMinutes" row) 60)
              else n.of 0);
        }

    abbrev pub is_rule_row : Rule n.Number → Bool
    is_rule_row r =
        not (r.category_id == "")
        && not (nat_beq (length r.keywords) 0)
        && not (is_sports_event_category_id r.category_id)

    unfoldable pub read_rules : Option Json → Rules
    unfolding read_rule is_sports_event_category_id
    read_rules value = filter is_rule_row (map read_rule (items value))

    abbrev pub rule_id : Rule n.Number → String
    rule_id row =
        normalize_event_category_id
          (if row.category_id == "" then row.category_name else row.category_id)

    -- A rule with what a row of its category adds.
    unfoldable pub merge_rule : Rule n.Number → Rule n.Number → Rule n.Number
    unfolding normalize_keyword_texts clamp_number
    merge_rule existing row =
        let series = existing.event_series || row.event_series in
        record existing {
          keywords = normalize_keyword_texts (existing.keywords ++ row.keywords);
          exclude_keywords =
              normalize_keyword_texts (existing.exclude_keywords ++ row.exclude_keywords);
          event_series = series;
          group_window = some (
              if series
              then clamp_number n 15 360
                  (minutes_or_60 (nonzero_or row.group_window existing.group_window))
              else n.of 0);
        }

    abbrev pub new_rule : String → Rule n.Number → Rule n.Number
    new_rule id row = record {
      category_id = id;
      category_name = if row.category_name == "" then event_category_name id else row.category_name;
      keywords = [];
      exclude_keywords = [];
      event_series = false;
      group_window = some (n.of 0);
    }

    -- `byID[id] = ...` for a row whose category is `id`.
    unfoldable pub put_rule : String → Rule n.Number → Rules → Rules
    unfolding merge_rule
    put_rule id row [] = merge_rule (new_rule id row) row ∷ []
    put_rule id row (r ∷ rs) =
        if r.category_id == id then merge_rule r row ∷ rs else r ∷ put_rule id row rs

    unfoldable pub add_rules : Rules → Rules → Rules
    unfolding put_rule normalize_event_category_id
    add_rules by_id [] = by_id
    add_rules by_id (row ∷ rows) =
        add_rules (if rule_id row == "" then by_id else put_rule (rule_id row) row by_id) rows

    abbrev pub without_window : Rule n.Number → Rule n.Number
    without_window r = if r.event_series then r else record r { group_window = none }

    -- `before` says that one name compares before another.
    abbrev pub by_name : (String → String → Bool) → Rule n.Number → Rule n.Number → Bool
    by_name before a b =
        before (event_category_name a.category_id) (event_category_name b.category_id)

    unfoldable pub normalize_event_keyword_rows : (String → String → Bool) → Option Json → Rules
    unfolding add_rules sort_by read_rules default_rules
    normalize_event_keyword_rows before value =
        map without_window
          (sort_by (by_name before) (add_rules [] (default_rules ++ read_rules value)))
