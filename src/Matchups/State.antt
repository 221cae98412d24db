-- ===== src/Matchups/State.antt =====
-- Which events are one game, and how they are joined. A field that the source leaves out is empty, or
-- 0. The joined event is a new one here; the source changes the object.
use silo_plugin_dispatcharr.Base.{
  ℕ, ◌+◌, ◌-◌, ◌*◌, String, Bool, true, false, ◌&&◌, ◌||◌, not, List, [], ◌∷◌, ◌++◌, ltb, leb,
  nat_beq, if◌then◌else◌, length, string_eq, nat_eq, ◌==◌, contains,
}
use Prim.Native.String.{◌++◌ as concat}

pub record Link : Type 0 where
  pub id : String
  pub name : String
  pub category_name : String
  pub reason : String
  pub confidence : String

pub record Team : Type 0 where
  pub name : String
  pub has_logo : Bool

pub record SportsEvent : Type 0 where
  pub start_unix : ℕ
  pub league_id : String
  pub home : Team
  pub away : Team
  pub has_artwork : Bool
  pub channels : List Link

pub record NameMatch : Type 0 where
  pub ok : Bool
  pub strong : Bool

abbrev pub is_same_text : List String → List String → Bool
is_same_text [] [] = true
is_same_text (x ∷ xs) (y ∷ ys) = x == y && is_same_text xs ys
is_same_text _ _ = false

-- Shorter, and the front of the other.
abbrev pub is_front : List String → List String → Bool
is_front [] [] = false
is_front [] (y ∷ ys) = true
is_front (x ∷ xs) [] = false
is_front (x ∷ xs) (y ∷ ys) = x == y && is_front xs ys

abbrev pub last_word : List String → String
last_word [] = ""
last_word (x ∷ []) = x
last_word (x ∷ (y ∷ ys)) = last_word (y ∷ ys)

module _ (shown : Link → Bool) (key : Link → String) where
  -- The filter, with the keys seen so far.
  unfoldable pub unique_links : List String → List Link → List Link
  unique_links seen [] = []
  unique_links seen (c ∷ cs) =
      let skip = not (shown c) || contains seen (key c) in
      let rest = unique_links (if skip then seen else key c ∷ seen) cs in
      if skip then rest else c ∷ rest

-- The language's operations on texts: the words of a name, the length of a text, and lower case;
-- and whether a channel matches the selection of profiles.
module _ (words : String → List String) (size : String → ℕ) (lower : String → String)
    (matches : Link → Bool) where
  unfoldable pub sports_team_name_match : String → String → NameMatch
  sports_team_name_match left right =
      let l = words left in
      let r = words right in
      let shorter = if ltb (length l) (length r) then l else r in
      let none_ : NameMatch = record { ok = false; strong = false } in
      let strong_ : NameMatch = record { ok = true; strong = true } in
      let nick : NameMatch =
        if leb 4 (size (last_word l)) && last_word l == last_word r then strong_ else none_ in
      if nat_beq (length l) 0 || nat_beq (length r) 0
      then none_
      else if is_same_text l r
      then strong_
      else if (is_front l r || is_front r l)
          && nat_beq (length shorter) 1
          && leb 4 (size (last_word shorter))
      then strong_
      else if (is_front l r || is_front r l) && leb 2 (length shorter)
      then record { ok = true; strong = false }
      else nick

  unfoldable pub sports_team_pairs_swapped : SportsEvent → SportsEvent → Bool
  unfolding sports_team_name_match
  sports_team_pairs_swapped left right =
      let same_sides =
        (sports_team_name_match left.home.name right.home.name).ok
        && (sports_team_name_match left.away.name right.away.name).ok in
      let home_away = sports_team_name_match left.home.name right.away.name in
      let away_home = sports_team_name_match left.away.name right.home.name in
      not same_sides && home_away.ok && away_home.ok && (home_away.strong || away_home.strong)

  unfoldable pub sports_events_same_matchup : SportsEvent → SportsEvent → Bool
  unfolding sports_team_pairs_swapped
  sports_events_same_matchup left right =
      let swapped = sports_team_pairs_swapped left right in
      let window = if swapped then 36 * 3600 else 6 * 3600 in
      let apart = (left.start_unix - right.start_unix) + (right.start_unix - left.start_unix) in
      let home = sports_team_name_match left.home.name right.home.name in
      let away = sports_team_name_match left.away.name right.away.name in
      not (not (nat_beq left.start_unix 0) && not (nat_beq right.start_unix 0) && ltb window apart)
      && (swapped || (home.ok && away.ok && (home.strong || away.strong)))

  abbrev pub letters : List String → ℕ
  letters [] = 0
  letters (w ∷ ws) = size w + letters ws

  unfoldable pub sports_event_listing_rank : SportsEvent → ℕ
  sports_event_listing_rank e =
      (if not (e.league_id == "") && not (e.league_id == "sports") then 4 else 0)
      + (if e.home.has_logo then 2 else 0)
      + (if e.away.has_logo then 2 else 0)
      + letters (words e.home.name)
      + letters (words e.away.name)
      + (if e.has_artwork then 3 else 0)

  abbrev pub channel_key : Link → String
  channel_key c =
      if c.id == ""
      then concat "label:"
          (lower (concat c.name (concat "|" (concat c.category_name (concat "|" c.reason)))))
      else concat "id:" c.id

  abbrev pub is_offered : Link → Bool
  is_offered c = matches c && not (lower c.confidence == "low")

  unfoldable pub unique_event_channels : List Link → List Link
  unfolding unique_links
  unique_event_channels channels = unique_links is_offered channel_key [] channels

  -- The entry that is there, and the event.
  unfoldable pub join_events : SportsEvent → SportsEvent → SportsEvent
  unfolding unique_event_channels sports_event_listing_rank
  join_events extra event =
      let kept =
        if ltb (sports_event_listing_rank extra) (sports_event_listing_rank event)
        then event
        else extra in
      record kept {
        channels = unique_event_channels (kept.channels ++ event.channels ++ extra.channels);
      }

  unfoldable pub absorb : SportsEvent → List SportsEvent → List SportsEvent
  unfolding join_events sports_events_same_matchup
  absorb event [] = event ∷ []
  absorb event (existing ∷ rest) =
      if sports_events_same_matchup existing event
      then join_events existing event ∷ rest
      else existing ∷ absorb event rest

  unfoldable pub collapse_onto : List SportsEvent → List SportsEvent → List SportsEvent
  unfolding absorb
  collapse_onto collapsed [] = collapsed
  collapse_onto collapsed (e ∷ es) = collapse_onto (absorb e collapsed) es

  unfoldable pub collapse_equivalent_sports_events : List SportsEvent → List SportsEvent
  unfolding collapse_onto
  collapse_equivalent_sports_events events = collapse_onto [] events
