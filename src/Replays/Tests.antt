-- ===== src/Replays/Tests.antt =====
-- Runs of the catalog's windows at small values.
use silo_plugin_dispatcharr.Base.{
  ℕ, ◌≤◌, String, ◌≡◌, refl, Bool, true, false, List, [], ◌∷◌, map, arith, length, take, All,
  string_eq, nat_eq, IsDistinct, sort_by, IsSorted,
}
use silo_plugin_dispatcharr.Replays.Windows.{
  WindowOptions, IsApart, IsCovered, merge_windows, event_windows, catalog_windows,
}
use silo_plugin_dispatcharr.Replays.Pages.{
  served, collect_catalog_pages, collect_catalog_pages-IsRead,
}
use silo_plugin_dispatcharr.Replays.Cover.{catalog_windows-IsApart, merge_windows-IsCovered}
use silo_plugin_dispatcharr.Replays.Matching.{
  Facts, full, MatchOptions, Match, better, event_matches,
}
use silo_plugin_dispatcharr.Replays.Matched.{IsJustified, keys}
use silo_plugin_dispatcharr.Replays.Ranking.{Covers, event_matches_lem}

abbrev options : WindowOptions
options = record {
  now_unix = 10000000;
  replay_lookback_days = 0;
  replay_future_hours = 0;
  max_date_days = 1;
  max_catalog_windows = 0;
}

-- Two events a day apart share a window; one ten days earlier has its own; one of last year is
-- not searched for.
two_windows :
    catalog_windows options (9900000 ∷ 9000000 ∷ 9986400 ∷ 0 ∷ [])
    ≡ record { start = 8913600; stop = 9086400 } ∷ record { start = 9813600; stop = 10072800 } ∷ []
unfolding catalog_windows sort_by
two_windows = refl

windows_apart :
    IsApart (catalog_windows options (9900000 ∷ 9000000 ∷ 9986400 ∷ []))
    × (length (catalog_windows options (9900000 ∷ 9000000 ∷ 9986400 ∷ [])) ≤ 4)
windows_apart = catalog_windows-IsApart options (9900000 ∷ 9000000 ∷ 9986400 ∷ [])

windows_cover :
    All
      (λ w. IsCovered w (merge_windows (event_windows options (9900000 ∷ 9000000 ∷ []))))
      (event_windows options (9900000 ∷ 9000000 ∷ []))
windows_cover = merge_windows-IsCovered options (9900000 ∷ 9000000 ∷ [])

abbrev catalog : List ℕ
catalog = 1 ∷ 2 ∷ 3 ∷ 4 ∷ 5 ∷ []

-- Two pages of two items each are not the whole catalog.
collect_catalog_pages-IsRead_example :
    ((collect_catalog_pages (served 2 catalog) 2).items ≡ 1 ∷ 2 ∷ 3 ∷ 4 ∷ [])
    × ((collect_catalog_pages (served 2 catalog) 2).truncated ≡ true)
collect_catalog_pages-IsRead_example =
    collect_catalog_pages-IsRead (served 2 catalog) 2 catalog (omega arith) (λ _. refl) 2

abbrev replay : String → ℕ → Facts
replay id common = record {
  shares_id = false;
  pair = full;
  dates = 9990000 ∷ [];
  names_league = true;
  useful_words = 2;
  common_words = common;
  content_id = id;
  title = id;
}

abbrev match_options : MatchOptions
match_options = record { threshold = 92; max_date_days = 7; max_matches = 10 }

abbrev no_title : String → String → Bool
no_title a b = false

-- The first item comes twice, the better one behind.
abbrev replay_items : List Facts
replay_items = replay "a" 0 ∷ replay "b" 1 ∷ replay "a" 2 ∷ []

event_matches_lem_example :
    (ms : List Match) × (event_matches no_title (λ i. "index") 10000000 match_options replay_items
      ≡ take 10 ms)
    × IsSorted (better no_title (λ i. "index")) ms
    × IsDistinct (keys ms)
    × All (IsJustified 10000000 match_options) ms
    × Covers no_title (λ i. "index") 10000000 match_options 0 replay_items ms
event_matches_lem_example =
    event_matches_lem no_title (λ i. "index") 10000000 match_options replay_items
      (record { asym = λ x y e. refl; chain = λ x y z e f. refl })

best_scores :
    map (λ m. m.score) (event_matches no_title (λ i. "index") 10000000 match_options replay_items)
    ≡ 105 ∷ 100 ∷ []
unfolding event_matches
best_scores = refl
