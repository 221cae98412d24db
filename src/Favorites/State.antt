-- ===== src/Favorites/State.antt =====
-- The part of the preferences that the viewer's clicks change, and what normalising does to it. An
-- object that is a map is the list of its entries, in the order of `Object.keys`.
use silo_plugin_dispatcharr.Base.{
  ℕ, zero, suc, ◌+◌, String, Bool, true, false, ◌&&◌, ◌||◌, not, Option, none, some, List, [], ◌∷◌,
  ◌++◌, map, ltb, leb, if◌then◌else◌, length, take, filter, string_eq, nat_eq, ◌==◌, contains,
  sort_by,
}
use silo_plugin_dispatcharr.Ids.{unique_ids}

abbrev pub Flags : Type 0
Flags = List (String × Bool)

pub record Watched : Type 0 where
  pub played_at : ℕ
  pub plays : ℕ

pub record Preferences : Type 0 where
  pub favorites : Flags
  pub favorite_order : List String
  pub auto_favorites : Flags
  pub recent_channels : List String
  pub continue_watching : List (String × Watched)
  pub recent_searches : List String

-- `!!map[id]`
abbrev pub is_set : Flags → String → Bool
is_set [] id = false
is_set (e ∷ es) id = if e.0 == id then e.1 else is_set es id

-- `map[id] = true`
unfoldable pub set_flag : String → Flags → Flags
set_flag id [] = (id, true) ∷ []
set_flag id (e ∷ es) = if e.0 == id then (id, true) ∷ es else e ∷ set_flag id es

-- `delete map[id]`
unfoldable pub clear_flag : String → Flags → Flags
clear_flag id es = filter (λ e. not (e.0 == id)) es

abbrev pub watched_of : List (String × Watched) → String → Watched
watched_of [] id = record { played_at = 0; plays = 0 }
watched_of (e ∷ es) id = if e.0 == id then e.1 else watched_of es id

unfoldable pub set_watched : String → Watched → List (String × Watched) → List (String × Watched)
set_watched id w [] = (id, w) ∷ []
set_watched id w (e ∷ es) = if e.0 == id then (id, w) ∷ es else e ∷ set_watched id w es

abbrev pub played_before : String × Watched → String × Watched → Bool
played_before a b = ltb b.1.played_at a.1.played_at

-- The language's `trim`.
module _ (trim : String → String) where
  abbrev pub searches : List String → List String
  searches values = take 12 (unique_ids (filter (λ s. not (s == "")) (map trim values)))

  -- `channels` has the identifiers of all channels.
  unfoldable pub normalize_preferences : List String → Preferences → Preferences
  normalize_preferences channels p =
      let explicit_favorites =
        filter (λ id. is_set p.favorites id && contains channels id) (map (λ e. e.0) p.favorites) in
      let recent = unique_ids (filter (contains channels) p.recent_channels) in
      let watched =
        filter (contains channels) (map (λ e. e.0) (sort_by played_before p.continue_watching)) in
      record p {
        favorite_order = unique_ids (
            filter (λ id. is_set p.favorites id && contains channels id) p.favorite_order
            ++ explicit_favorites);
        recent_channels = take 24 (unique_ids (recent ++ watched));
        recent_searches = searches p.recent_searches;
      }

  unfoldable pub record_watch_preference : List String → ℕ → String → Preferences → Preferences
  unfolding normalize_preferences
  record_watch_preference channels now id p =
      let plays = (watched_of p.continue_watching id).plays + 1 in
      let watched = record p {
        recent_channels = take 24 (unique_ids (id ∷ p.recent_channels));
        continue_watching =
            set_watched id (record { played_at = now; plays = plays }) p.continue_watching;
        auto_favorites =
            if leb 3 plays && not (is_set p.favorites id)
            then set_flag id p.auto_favorites
            else p.auto_favorites;
      } in
      if id == "" then p else normalize_preferences channels watched

  unfoldable pub set_channel_favorite : List String → String → Bool → Preferences → Preferences
  unfolding normalize_preferences
  set_channel_favorite channels id enabled p =
      let added = record p {
        favorites = set_flag id p.favorites;
        favorite_order = unique_ids (p.favorite_order ++ id ∷ []);
      } in
      let removed = record p {
        favorites = clear_flag id p.favorites;
        favorite_order = filter (λ i. not (i == id)) p.favorite_order;
      } in
      if id == "" then p else normalize_preferences channels (if enabled then added else removed)

  unfoldable pub write_recent_searches : List String → Preferences → Preferences
  write_recent_searches values p = record p { recent_searches = searches values }

  -- With the recent searches that the page has shown.
  unfoldable pub remember_search : List String → String → Preferences → Preferences
  unfolding write_recent_searches
  remember_search recent value p =
      if trim value == "" then p else write_recent_searches (trim value ∷ recent) p

  -- What a viewer does.
  pub data Deed : Type 0 where
    watches : ℕ → String → Deed
    favors : String → Bool → Deed
    searches_for : List String → String → Deed
    clears_searches : Deed

  unfoldable pub perform : List String → Deed → Preferences → Preferences
  unfolding record_watch_preference set_channel_favorite remember_search write_recent_searches
  perform channels (watches now id) p = record_watch_preference channels now id p
  perform channels (favors id enabled) p = set_channel_favorite channels id enabled p
  perform channels (searches_for recent value) p = remember_search recent value p
  perform channels clears_searches p = write_recent_searches [] p

-- `orderedFavoriteChannels` over the channels that are shown.
unfoldable pub ordered_favorite_channels : Preferences → List String → List String
unfolding unique_ids
ordered_favorite_channels p channels =
    let ordered = filter (contains channels) (unique_ids p.favorite_order) in
    ordered
    ++ filter
        (λ id. (is_set p.favorites id || is_set p.auto_favorites id) && not (contains ordered id))
        channels

abbrev pub index_of : String → List String → Option ℕ
index_of id [] = none
index_of id (x ∷ xs) =
    if x == id then some 0 else elim (index_of id xs) [ none ↦ none | some i ↦ some (suc i) ]

-- The entry at an index and the next one, exchanged.
unfoldable pub exchange : ℕ → List String → List String
exchange i [] = []
exchange zero (x ∷ []) = x ∷ []
exchange zero (x ∷ (y ∷ ys)) = y ∷ x ∷ ys
exchange (suc i) (x ∷ xs) = x ∷ exchange i xs

-- `moveFavorite` over the channels that are shown.
unfoldable pub move_favorite : Bool → List String → String → Preferences → Preferences
unfolding ordered_favorite_channels exchange
move_favorite up channels id p =
    let order = filter (is_set p.favorites) (ordered_favorite_channels p channels) in
    elim (index_of id order) [
      | none ↦ p
      | some i ↦ elim i [
        | zero ↦
            if up || leb (length order) 1 then p else record p { favorite_order = exchange 0 order }
        | suc j ↦
            if up
            then record p { favorite_order = exchange j order }
            else if leb (length order) (suc (suc j))
            then p
            else record p { favorite_order = exchange (suc j) order }
      ]
    ]
