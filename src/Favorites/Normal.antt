-- ===== src/Favorites/Normal.antt =====
-- What the lists of the preferences hold, whatever the viewer does.
use silo_plugin_dispatcharr.Base.{
  ℕ, ◌≤◌, String, ◌≡◌, Bool, true, false, ◌&&◌, not, List, [], ◌∷◌, ◌++◌, map, arith, if◌then◌else◌,
  length, take, filter, length-take, string_eq, nat_eq, ◌==◌, contains, IsDistinct, contains-append,
  contains-filter, contains-take-false, take-IsDistinct, sort_by,
}
use silo_plugin_dispatcharr.Ids.{unique_ids, contains-unique_ids, unique_ids-IsDistinct}
use silo_plugin_dispatcharr.Favorites.State.{
  Flags, Preferences, is_set, played_before, searches, normalize_preferences,
  record_watch_preference, set_channel_favorite, write_recent_searches, remember_search, Deed,
  watches, favors, searches_for, clears_searches, perform,
}

pub record IsNormal (channels : List String) (p : Preferences) : Type 0 where
  pub order : IsDistinct p.favorite_order
  pub favorites :
      (id : String)
      → contains p.favorite_order id
        ≡ (not (id == "") && is_set p.favorites id && contains channels id)
  pub recent : IsDistinct p.recent_channels × (length p.recent_channels ≤ 24)
  pub known : (id : String) → contains p.recent_channels id ≡ true → contains channels id ≡ true
  pub searched : IsDistinct p.recent_searches × (length p.recent_searches ≤ 12)
  pub named : contains p.recent_searches "" ≡ false

is_set-contains :
    (es : Flags) (id : String) → is_set es id ≡ true → contains (map (λ e. e.0) es) id ≡ true
is_set-contains [] id h = h
is_set-contains (e ∷ es) id h = ground (arith, is_set-contains es id)

contains-take :
    (n : ℕ) (xs : List String) (a : String) → contains (take n xs) a ≡ true → contains xs a ≡ true
contains-take n xs a h = ground (arith, contains-take-false n xs a)

front_bound : (n : ℕ) (xs : List String) → length (take n xs) ≤ n
front_bound n xs = omega (arith, length-take n xs)

module _ (trim : String → String) where
  searches-lem :
      (values : List String)
      → IsDistinct (searches trim values)
        × (length (searches trim values) ≤ 12)
        × (contains (searches trim values) "" ≡ false)
  searches-lem values =
      let named = filter (λ s. not (s == "")) (map trim values) in
      (
        take-IsDistinct 12 (unique_ids named) (unique_ids-IsDistinct named),
        front_bound 12 (unique_ids named),
        contains-take-false 12 (unique_ids named) "" (contains-unique_ids named ""),
      )

  normalize_preferences-IsNormal :
      (channels : List String) (p : Preferences)
      → IsNormal channels (normalize_preferences trim channels p)
  unfolding normalize_preferences
  normalize_preferences-IsNormal channels p =
      let valid : String → Bool = λ id. is_set p.favorites id && contains channels id in
      let names = map (λ e. e.0) p.favorites in
      let order = filter valid p.favorite_order ++ filter valid names in
      let played = map (λ e. e.0) (sort_by played_before p.continue_watching) in
      let recents =
        unique_ids (filter (contains channels) p.recent_channels)
        ++ filter (contains channels) played in
      let found = searches-lem p.recent_searches in
      record {
        order = unique_ids-IsDistinct order;
        favorites = λ id. ground (
          arith,
          contains-unique_ids order id,
          contains-append (filter valid p.favorite_order) (filter valid names) id,
          contains-filter valid p.favorite_order id,
          contains-filter valid names id,
          is_set-contains p.favorites id,
        );
        recent = (
          take-IsDistinct 24 (unique_ids recents) (unique_ids-IsDistinct recents),
          front_bound 24 (unique_ids recents),
        );
        known = λ id h. ground (
          arith,
          contains-take 24 (unique_ids recents) id h,
          contains-unique_ids recents id,
          contains-append (unique_ids (filter (contains channels) p.recent_channels))
              (filter (contains channels) played) id,
          contains-unique_ids (filter (contains channels) p.recent_channels) id,
          contains-filter (contains channels) p.recent_channels id,
          contains-filter (contains channels) played id,
        );
        searched = (found.0, found.1);
        named = found.2;
      }

  IsNormal-if :
      (channels : List String) (b : Bool) (p q : Preferences)
      → IsNormal channels p
      → IsNormal channels q
      → IsNormal channels (if b then p else q)
  IsNormal-if channels true p q h k = h
  IsNormal-if channels false p q h k = k

  write_recent_searches-IsNormal :
      (channels values : List String) (p : Preferences)
      → IsNormal channels p
      → IsNormal channels (write_recent_searches trim values p)
  unfolding write_recent_searches
  write_recent_searches-IsNormal channels values p h =
      let found = searches-lem values in
      record {
        order = h.order;
        favorites = h.favorites;
        recent = h.recent;
        known = h.known;
        searched = (found.0, found.1);
        named = found.2;
      }

  perform-IsNormal :
      (channels : List String) (deed : Deed trim) (p : Preferences)
      → IsNormal channels p
      → IsNormal channels (perform trim channels deed p)
  unfolding perform record_watch_preference set_channel_favorite remember_search
  perform-IsNormal channels (watches now id) p h =
      IsNormal-if channels (id == "") p _ h (normalize_preferences-IsNormal channels _)
  perform-IsNormal channels (favors id enabled) p h =
      IsNormal-if channels (id == "") p _ h (normalize_preferences-IsNormal channels _)
  perform-IsNormal channels (searches_for recent value) p h =
      IsNormal-if channels (trim value == "") p _ h
        (write_recent_searches-IsNormal channels (trim value ∷ recent) p h)
  perform-IsNormal channels clears_searches p h = write_recent_searches-IsNormal channels [] p h

  abbrev pub performs : List String → List (Deed trim) → Preferences → Preferences
  performs channels [] p = p
  performs channels (d ∷ ds) p = performs channels ds (perform trim channels d p)

  performs_keep :
      (channels : List String) (deeds : List (Deed trim)) (p : Preferences)
      → IsNormal channels p
      → IsNormal channels (performs channels deeds p)
  performs_keep channels [] p h = h
  performs_keep channels (d ∷ ds) p h =
      performs_keep channels ds (perform trim channels d p) (perform-IsNormal channels d p h)

  -- From normalised preferences, whatever a viewer watches, favours or searches for: the order of
  -- favourites has each favourite that is a known channel with a name once and nothing else, the
  -- recent channels are at most 24 distinct known ones, and the recent searches are at most 12
  -- distinct texts that are not empty.
  pub performs-IsNormal :
      (channels : List String) (deeds : List (Deed trim)) (p : Preferences)
      → IsNormal channels (performs channels deeds (normalize_preferences trim channels p))
  performs-IsNormal channels deeds p =
      performs_keep channels deeds (normalize_preferences trim channels p)
        (normalize_preferences-IsNormal channels p)
