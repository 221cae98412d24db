-- ===== src/Routes/State.antt =====
-- What an address keeps of the page, and how it is written and read. A hash is the list of what
-- stands between its slashes after `#/`: no encoded part has a slash. A field that the source leaves
-- out is empty.
use silo_plugin_dispatcharr.Base.{
  ℕ, String, Bool, ◌&&◌, not, Option, none, some, List, [], ◌∷◌, map, if◌then◌else◌, get_elem?,
  drop, filter, string_eq, nat_eq, ◌==◌, contains,
}

pub record Snapshot : Type 0 where
  pub view : String
  pub category : String
  pub sports_tab : String
  pub sports_league : String
  pub sports_team : String
  pub sports_event : String
  pub events_tab : String
  pub event_category : String
  pub admin_tab : String
  pub channel_id : String

abbrev pub only_view : String → Snapshot
only_view view = record {
  view = view;
  category = "";
  sports_tab = "";
  sports_league = "";
  sports_team = "";
  sports_event = "";
  events_tab = "";
  event_category = "";
  admin_tab = "";
  channel_id = "";
}

-- `a || b` on texts
abbrev pub or_else : String → String → String
or_else a b = if a == "" then b else a

abbrev pub page_views : List String
page_views =
    "home" ∷ "channels" ∷ "live" ∷ "favorites" ∷ "guide" ∷ "mytv" ∷ "search" ∷ "recordings"
    ∷ "settings" ∷ "multiview" ∷ []

abbrev pub other_views : List String
other_views =
    "home" ∷ "channels" ∷ "live" ∷ "favorites" ∷ "guide" ∷ "mytv" ∷ "onlater" ∷ "search"
    ∷ "recordings" ∷ "settings" ∷ "multiview" ∷ "events" ∷ []

-- Where the page is served, and whether it has sports.
pub record Site : Type 0 where
  pub is_admin_route : Bool
  pub is_sports_path : Bool
  pub sports_enabled : Bool

abbrev pub default_browse_view : Site → String
default_browse_view site = if site.is_sports_path && site.sports_enabled then "sports" else "home"

-- `parts[i] || ""`
abbrev pub part : ℕ → List String → String
part i parts = elim (get_elem? parts i) [ none ↦ "" | some p ↦ p ]

-- The language's `encodeURIComponent`, and `decodeURIComponent`, which throws on some texts.
module _ (encode : String → String) (decode : String → Option String) (site : Site) where
  -- What follows the tab of a sports route, and that of an events route.
  abbrev pub sports_detail : Snapshot → List String
  sports_detail s =
      if not (s.sports_event == "")
      then "event" ∷ encode s.sports_event ∷ []
      else if not (s.sports_team == "")
      then "team" ∷ encode s.sports_team ∷ []
      else if not (s.sports_league == "")
      then "league" ∷ encode s.sports_league ∷ []
      else []

  abbrev pub events_detail : Snapshot → List String
  events_detail s =
      if not (s.event_category == "") then "category" ∷ encode s.event_category ∷ [] else []

  unfoldable pub app_route_hash : Snapshot → List String
  app_route_hash s =
      let sports_route = encode (or_else s.sports_tab "today") ∷ sports_detail s in
      if s.view == "admin"
      then "admin" ∷ encode (or_else s.admin_tab "source") ∷ []
      else if s.view == "player" && not (s.channel_id == "")
      then "watch" ∷ encode s.channel_id ∷ []
      else if s.view == "sports"
      then (if site.is_sports_path then sports_route else "sports" ∷ sports_route)
      else if s.view == "events"
      then "events" ∷ encode (or_else s.events_tab "upcoming") ∷ events_detail s
      else if s.view == "live" && not (s.category == "")
      then "channels" ∷ encode s.category ∷ []
      else (if contains page_views s.view then s.view else "home") ∷ []

  unfoldable pub read_app_route_part : String → String
  read_app_route_part text = elim (decode text) [ none ↦ "" | some t ↦ t ]

  unfoldable pub read_sports_route : List String → Snapshot
  read_sports_route parts = record (only_view "sports") {
    sports_tab = or_else (part 0 parts) "today";
    sports_event = if part 1 parts == "event" then part 2 parts else "";
    sports_team = if part 1 parts == "team" then part 2 parts else "";
    sports_league = if part 1 parts == "league" then part 2 parts else "";
  }

  unfoldable pub sports_parts : List String → Option (List String)
  sports_parts parts =
      if site.is_sports_path
      then (if contains other_views (part 0 parts) then none else some parts)
      else if part 0 parts == "sports"
      then some (drop 1 parts)
      else none

  unfoldable pub read_app_route_parts : List String → Snapshot
  unfolding read_sports_route sports_parts
  read_app_route_parts [] = only_view (default_browse_view site)
  read_app_route_parts (p ∷ ps) =
      let parts = p ∷ ps in
      if p == "watch"
      then record (only_view "player") { channel_id = part 1 parts }
      else if p == "channels" && not (part 1 parts == "")
      then record (only_view "live") { category = part 1 parts }
      else elim (sports_parts parts) [
        | some route ↦ read_sports_route route
        | none ↦
            if p == "events"
            then record (only_view "events") {
              events_tab = or_else (part 1 parts) "upcoming";
              event_category = if part 2 parts == "category" then part 3 parts else "";
            }
            else if p == "onlater"
            then only_view "mytv"
            else only_view (if contains page_views p then p else "home")
      ]

  unfoldable pub read_app_route_hash : List String → Snapshot
  unfolding read_app_route_part read_app_route_parts
  read_app_route_hash raw =
      let parts = map read_app_route_part (filter (λ p. not (p == "")) raw) in
      if site.is_admin_route
      then record (only_view "admin") {
        admin_tab = if part 0 parts == "admin" then or_else (part 1 parts) "source" else "source";
      }
      else read_app_route_parts parts
