-- ===== src/Favorites/Tests.antt =====
-- Concrete preferences.
use silo_plugin_dispatcharr.Base.{String, ◌≡◌, refl, true, false, List, [], ◌∷◌, string_eq, nat_eq}
use silo_plugin_dispatcharr.Favorites.State.{
  Preferences, normalize_preferences, move_favorite, Deed, watches, favors, searches_for,
}
use silo_plugin_dispatcharr.Favorites.Normal.{IsNormal, performs, performs-IsNormal}

abbrev stored : Preferences
stored = record {
  favorites = ("1", true) ∷ ("2", false) ∷ ("9", true) ∷ ("3", true) ∷ [];
  favorite_order = "3" ∷ "3" ∷ "2" ∷ [];
  auto_favorites = [];
  recent_channels = "9" ∷ "2" ∷ [];
  continue_watching = ("1", record { played_at = 5; plays = 1 }) ∷ [];
  recent_searches = "" ∷ "news" ∷ "news" ∷ [];
}

abbrev known : List String
known = "1" ∷ "2" ∷ "3" ∷ []

abbrev deeds : List (Deed (λ s. s))
deeds = favors "2" true ∷ watches 10 "3" ∷ searches_for [] "film" ∷ []

performs-IsNormal_example :
    IsNormal known (performs (λ s. s) known deeds (normalize_preferences (λ s. s) known stored))
performs-IsNormal_example = performs-IsNormal (λ s. s) known deeds stored

-- A favourite that is not shown loses its place when another one is moved.
moved :
    (move_favorite true ("1" ∷ "2" ∷ []) "2" (record stored {
      favorites = ("1", true) ∷ ("2", true) ∷ ("3", true) ∷ [];
      favorite_order = "3" ∷ "1" ∷ "2" ∷ [];
    })).favorite_order
    ≡ "2" ∷ "1" ∷ []
unfolding move_favorite
moved = refl
