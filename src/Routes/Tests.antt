-- ===== src/Routes/Tests.antt =====
-- Concrete addresses.
use silo_plugin_dispatcharr.Base.{◌≡◌, refl, true, false, some, [], ◌∷◌, string_eq, nat_eq}
use silo_plugin_dispatcharr.Routes.State.{
  Snapshot, only_view, Site, app_route_hash, read_app_route_hash,
}
use silo_plugin_dispatcharr.Routes.RoundTrip.{kept, IsReadable, read_app_route_hash-app_route_hash}
use silo_plugin_dispatcharr.Routes.Navigation.{
  Page, app_route_snapshot, clicks, tab_click, event_click, back_click,
}
use silo_plugin_dispatcharr.Routes.Sports.{clicks-IsReadable}

abbrev sports_site : Site
sports_site = record { is_admin_route = false; is_sports_path = true; sports_enabled = true }

abbrev game : Snapshot
game = record (only_view "sports") { sports_tab = "scores"; sports_event = "game 7" }

read_app_route_hash-app_route_hash_example :
    read_app_route_hash (λ s. s) some sports_site (app_route_hash (λ s. s) some sports_site game)
    ≡ kept game
read_app_route_hash-app_route_hash_example =
    read_app_route_hash-app_route_hash (λ s. s) some (λ s. refl) refl
      (
        refl,
        (
          refl,
          (
            refl,
            (
              refl,
              (
                refl,
                (
                  refl,
                  (
                    refl,
                    (
                      refl,
                      (
                        refl,
                        (refl, (refl, (refl, (refl, (refl, (refl, (refl, (refl, (refl, tt))))))))),
                      ),
                    ),
                  ),
                ),
              ),
            ),
          ),
        ),
      )
      sports_site game refl (λ e k. refl)

abbrev scores : Page
scores = record {
  view = "sports";
  category = "";
  folder_query = "";
  search_return_view = "home";
  sports_tab = "scores";
  sports_league = "";
  sports_team = "";
  sports_event = "";
  events_tab = "";
  event_category = "";
  admin_tab = "";
  channel_id = "";
}

sports_clicks : IsReadable sports_site (
    app_route_snapshot sports_site
      (clicks (tab_click "upcoming" ∷ event_click "game 7" ∷ back_click ∷ []) scores))
sports_clicks =
    clicks-IsReadable sports_site (tab_click "upcoming" ∷ event_click "game 7" ∷ back_click ∷ [])
      scores (record { tab = refl; no_mytv = refl })
