-- ===== src/Matchups/Tests.antt =====
-- Two listings of one game.
use silo_plugin_dispatcharr.Base.{
  String, ◌≡◌, refl, true, false, [], ◌∷◌, length, string_eq, nat_eq,
}
use silo_plugin_dispatcharr.Matchups.State.{Link, SportsEvent, collapse_equivalent_sports_events}
use silo_plugin_dispatcharr.Matchups.Channels.{
  has_channel, collapse_equivalent_sports_events-has_channel,
}

abbrev link : String → Link
link id = record { id = id; name = ""; category_name = ""; reason = ""; confidence = "" }

abbrev game : String → SportsEvent
game id = record {
  start_unix = 1000;
  league_id = "nhl";
  home = record { name = "leafs"; has_logo = true };
  away = record { name = "bruins"; has_logo = true };
  has_artwork = false;
  channels = link id ∷ [];
}

collapse_equivalent_sports_events-has_channel_example :
    has_channel
      (λ w. w ∷ [])
      (λ w. 5)
      (λ s. s)
      (λ c. true)
      "id:2"
      (collapse_equivalent_sports_events
        (λ w. w ∷ [])
        (λ w. 5)
        (λ s. s)
        (λ c. true)
        (game "1" ∷ game "2" ∷ []))
    ≡ has_channel (λ w. w ∷ []) (λ w. 5) (λ s. s) (λ c. true) "id:2" (game "1" ∷ game "2" ∷ [])
collapse_equivalent_sports_events-has_channel_example =
    collapse_equivalent_sports_events-has_channel (λ w. w ∷ []) (λ w. 5) (λ s. s) (λ c. true)
      (game "1" ∷ game "2" ∷ []) "id:2"

-- They are shown as one.
one_game :
    length (
      collapse_equivalent_sports_events
        (λ w. w ∷ [])
        (λ w. 5)
        (λ s. s)
        (λ c. true)
        (game "1" ∷ game "2" ∷ []))
    ≡ 1
unfolding collapse_equivalent_sports_events
one_game = refl
