-- ===== src/Routes/Navigation.antt =====
-- The navigation of the page: `setView` as far as it settles the page's address, the routes that it
-- restores, and the tabs, leagues and events of the sports pages.
use silo_plugin_dispatcharr.Base.{
  String, Bool, ◌&&◌, ◌||◌, not, List, [], ◌∷◌, if◌then◌else◌, string_eq, nat_eq, ◌==◌, contains,
}
use silo_plugin_dispatcharr.Routes.State.{Snapshot, or_else, Site, default_browse_view}

-- What an address is made from. `separate_app` says that sports is an application of its own.
pub record Page : Type 0 where
  pub view : String
  pub category : String
  pub folder_query : String
  pub search_return_view : String
  pub sports_tab : String
  pub sports_league : String
  pub sports_team : String
  pub sports_event : String
  pub events_tab : String
  pub event_category : String
  pub admin_tab : String
  pub channel_id : String

unfoldable pub app_route_snapshot : Site → Page → Snapshot
app_route_snapshot site p = record {
  view = if site.is_admin_route then "admin" else p.view;
  category = p.category;
  sports_tab = or_else p.sports_tab "today";
  sports_league = p.sports_league;
  sports_team = p.sports_team;
  sports_event = p.sports_event;
  events_tab = or_else p.events_tab "upcoming";
  event_category = p.event_category;
  admin_tab = or_else p.admin_tab "source";
  channel_id = if p.view == "player" then p.channel_id else "";
}

unfoldable pub apply_app_route_snapshot : Snapshot → Page → Page
apply_app_route_snapshot s p = record p {
  category = s.category;
  sports_tab = or_else s.sports_tab "today";
  sports_league = s.sports_league;
  sports_team = s.sports_team;
  sports_event = s.sports_event;
  events_tab = or_else s.events_tab "upcoming";
  event_category = s.event_category;
  admin_tab = or_else s.admin_tab p.admin_tab;
}

abbrev pub live_tv_only_views : List String
live_tv_only_views =
    "home" ∷ "guide" ∷ "channels" ∷ "mytv" ∷ "events" ∷ "live" ∷ "favorites" ∷ "recordings" ∷ []

unfoldable pub sports_nav_available : Bool → Site → Bool
sports_nav_available separate_app site =
    site.sports_enabled && (site.is_sports_path || not separate_app)

-- The view that `setView` settles on.
unfoldable pub settled_view : Bool → Site → String → String
unfolding sports_nav_available
settled_view separate_app site view =
    let browse =
      if view == "sports" && not (sports_nav_available separate_app site)
      then default_browse_view site
      else view in
    if site.is_sports_path && site.sports_enabled && contains live_tv_only_views browse
    then "sports"
    else browse

-- `setView`; `preserve` is `options.preserveBrowseState`.
unfoldable pub set_page_view : Bool → Site → Bool → String → Page → Page
unfolding settled_view
set_page_view separate_app site preserve wanted p =
    let view = settled_view separate_app site wanted in
    let returns = view == "search" && not (p.view == "search") && not (p.view == "player") in
    let leaves = not (view == p.view) && not preserve in
    let resets = contains ("favorites" ∷ "mytv" ∷ []) view && not preserve in
    let clears = contains ("mytv" ∷ "sports" ∷ "events" ∷ "channels" ∷ []) view in
    record p {
      view = view;
      search_return_view = if returns then or_else p.view "home" else p.search_return_view;
      folder_query = if leaves then "" else p.folder_query;
      category = if resets || clears then "" else p.category;
    }

abbrev pub sports_hub_tabs : List String
sports_hub_tabs = "today" ∷ "scores" ∷ "teams" ∷ "mysports" ∷ "news" ∷ []

unfoldable pub sports_hub_tab : String → String
sports_hub_tab tab =
    if tab == "replays" || contains sports_hub_tabs tab
    then tab
    else if tab == "live"
    then "today"
    else if tab == "upcoming"
    then "scores"
    else if tab == "all"
    then "scores"
    else if tab == "favorites"
    then "mysports"
    else "today"

unfoldable pub set_sports_tab : String → Page → Page
unfolding sports_hub_tab
set_sports_tab tab p = record p {
  sports_tab = sports_hub_tab tab;
  sports_team = "";
  sports_league = "";
  sports_event = "";
}

unfoldable pub open_sports_league : String → Page → Page
open_sports_league league p = record p {
  sports_league = league;
  sports_team = "";
  sports_event = "";
}

unfoldable pub open_sports_event : String → Page → Page
open_sports_event event p =
    let from_mytv = record p { view = "sports"; sports_tab = "favorites" } in
    record (if p.view == "mytv" then from_mytv else p) { sports_event = event }

unfoldable pub open_sports_team : String → Page → Page
open_sports_team key p = record p {
  view = "sports";
  sports_team = key;
  sports_event = "";
  sports_league = "";
}

-- `backFromSportsDetail` without an entry of the browser's history.
unfoldable pub back_from_sports_detail : Page → Page
back_from_sports_detail p =
    if not (p.sports_event == "")
    then record p { sports_event = "" }
    else if not (p.sports_team == "")
    then record p { sports_team = "" }
    else record p { sports_league = ""; sports_tab = "today" }

unfoldable pub set_event_tab : String → Page → Page
set_event_tab tab p = record p { events_tab = or_else tab "live" }

-- What a click in the sports pages does.
pub data Click : Type 0 where
  tab_click league_click team_click event_click : String → Click
  back_click : Click

unfoldable pub click : Click → Page → Page
unfolding set_sports_tab open_sports_league open_sports_team open_sports_event
    back_from_sports_detail
click (tab_click tab) p = set_sports_tab tab p
click (league_click league) p = open_sports_league league p
click (team_click key) p = open_sports_team key p
click (event_click event) p = open_sports_event event p
click back_click p = back_from_sports_detail p

abbrev pub clicks : List Click → Page → Page
clicks [] p = p
clicks (c ∷ cs) p = clicks cs (click c p)
