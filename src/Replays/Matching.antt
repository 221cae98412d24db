-- ===== src/Replays/Matching.antt =====
-- `dateScore`, `scoreCandidate` and the loop of `matchEvents` for one event. What the texts of an event
-- and an item say of each other is given (`Facts`); times are Unix seconds.
use silo_plugin_dispatcharr.Base.{
  ℕ, ◌+◌, ◌-◌, ◌*◌, ◌/◌, min, max, String, Bool, true, false, ◌&&◌, ◌||◌, not, Option, none, some,
  List, [], ◌∷◌, ◌++◌, ltb, leb, nat_beq, if◌then◌else◌, take, string_eq, nat_eq, ◌==◌, sort_by,
}

-- Whether both teams are named in the item: in full, or in a context of sports.
pub data PairKind : Type 0 where
  no_pair : PairKind
  full : PairKind
  mixed : PairKind

-- An item as one event sees it: whether an identifier is shared, the teams, the dates of the item,
-- whether the league is named, how many of the useful words of the event there are and how many of
-- them the item has, and the identifier and title of the item.
pub record Facts : Type 0 where
  pub shares_id : Bool
  pub pair : PairKind
  pub dates : List ℕ
  pub names_league : Bool
  pub useful_words : ℕ
  pub common_words : ℕ
  pub content_id : String
  pub title : String

pub record MatchOptions : Type 0 where
  pub threshold : ℕ
  pub max_date_days : ℕ
  pub max_matches : ℕ

pub record DateScore : Type 0 where
  pub is_usable : Bool
  pub score : ℕ
  pub gap : ℕ

pub record Match : Type 0 where
  pub key : String
  pub facts : Facts
  pub score : ℕ
  pub reasons : List String

abbrev pub distance : ℕ → ℕ → ℕ
distance a b = (a - b) + (b - a)

-- `Math.min` over the distances to the dates behind a first one.
abbrev pub nearest_gap : ℕ → ℕ → List ℕ → ℕ
nearest_gap unix gap [] = gap
nearest_gap unix gap (d ∷ ds) = nearest_gap unix (min gap (distance unix d)) ds

abbrev pub score_gap : ℕ → ℕ → DateScore
score_gap days gap =
    if ltb (days * 86400) gap
    then record { is_usable = false; score = 0; gap = gap }
    else if leb gap 86400
    then record { is_usable = true; score = 15; gap = gap }
    else if leb gap (3 * 86400)
    then record { is_usable = true; score = 12; gap = gap }
    else if leb gap (7 * 86400)
    then record { is_usable = true; score = 8; gap = gap }
    else record { is_usable = true; score = 3; gap = gap }

unfoldable pub date_score : ℕ → List ℕ → ℕ → DateScore
date_score event_unix [] days = record { is_usable = false; score = 0; gap = 0 }
date_score event_unix (d ∷ ds) days =
    if nat_beq event_unix 0
    then record { is_usable = false; score = 0; gap = 0 }
    else score_gap days (nearest_gap event_unix (distance event_unix d) ds)

-- `Math.round(overlap * 10)` of a part of the useful words.
abbrev pub overlap_score : Facts → ℕ
overlap_score f =
    if nat_beq f.useful_words 0
    then 0
    else (20 * f.common_words + f.useful_words) / (2 * f.useful_words)

abbrev pub is_full : PairKind → Bool
is_full no_pair = false
is_full full = true
is_full mixed = false

abbrev pub is_pair : PairKind → Bool
is_pair no_pair = false
is_pair full = true
is_pair mixed = true

abbrev pub pair_score : PairKind → ℕ
pair_score kind = if is_full kind then 62 else 52

unfoldable pub total_score : ℕ → MatchOptions → Facts → ℕ
unfolding date_score
total_score event_unix o f =
    pair_score f.pair
    + (if f.names_league then 18 else 0)
    + (date_score event_unix f.dates o.max_date_days).score
    + overlap_score f

abbrev pub reasons_of : DateScore → Facts → List String
reasons_of d f =
    (if is_full f.pair then "both team names match" else "both teams match in sports context")
      ∷ (if f.names_league then "league matches" ∷ [] else [])
    ++ (if leb d.gap 86400 then "date is within one day" else "date is nearby")
      ∷ (if nat_beq (overlap_score f) 0 then [] else "title tokens overlap" ∷ [])

-- The key is that of the item in the map of matches.
unfoldable pub score_candidate : ℕ → MatchOptions → String → Facts → Option Match
unfolding total_score date_score
score_candidate event_unix o key f =
    let d = date_score event_unix f.dates o.max_date_days in
    let score = total_score event_unix o f in
    if f.shares_id
    then some
        (record { key = key; facts = f; score = 1000; reasons = "Sportarr event ID matches" ∷ [] })
    else if not (is_pair f.pair) || not d.is_usable
    then none
    else if not f.names_league && not (is_full f.pair)
    then none
    else if ltb score o.threshold
    then none
    else some (record { key = key; facts = f; score = score; reasons = reasons_of d f })

-- `byContent.set`, when there is no match with the key or a lower one; it keeps its place.
unfoldable pub put_match : Match → List Match → List Match
put_match m [] = m ∷ []
put_match m (x ∷ xs) =
    if x.key == m.key then (if ltb x.score m.score then m else x) ∷ xs else x ∷ put_match m xs

abbrev pub put_option : Option Match → List Match → List Match
put_option none ms = ms
put_option (some m) ms = put_match m ms

-- How titles compare, and how an index prints behind "index:".
module _ (before_title : String → String → Bool) (index_key : ℕ → String) where
  abbrev pub content_key : ℕ → Facts → String
  content_key index f = if f.content_id == "" then index_key index else f.content_id

  unfoldable pub collect_matches : ℕ → MatchOptions → ℕ → List Facts → List Match → List Match
  unfolding put_match score_candidate
  collect_matches event_unix o index [] ms = ms
  collect_matches event_unix o index (f ∷ fs) ms =
      collect_matches event_unix o (index + 1) fs
        (put_option (score_candidate event_unix o (content_key index f) f) ms)

  abbrev pub better : Match → Match → Bool
  better left right =
      if nat_beq right.score left.score
      then before_title left.facts.title right.facts.title
      else ltb right.score left.score

  unfoldable pub event_matches : ℕ → MatchOptions → List Facts → List Match
  unfolding collect_matches sort_by
  event_matches event_unix o items =
      take (max 1 o.max_matches) (sort_by better (collect_matches event_unix o 0 items []))
