-- ===== src/Multiview/Sessions.antt =====
-- What becomes of the watch sessions of the tiles.
use silo_plugin_dispatcharr.Base.{
  ℕ, zero, suc, String, ◌≡◌, refl, ap, ◌∙◌, inl, inr, true, Option, none, some, List, [], ◌∷◌, ◌++◌,
  map, arith, if◌then◌else◌, Option-cases, is_some, take, All, string_eq, nat_eq, ◌==◌,
}
use silo_plugin_dispatcharr.Multiview.State.{
  own_channel_id, Channel, Tile, Multiview, destroy_multiview_media, all_stops, stop_all_multiview,
  resolve_channel, shown_tiles, render_multiview_page,
}

abbrev pub session_ids : List Tile → List String
session_ids [] = []
session_ids (tile ∷ tiles) =
    (elim tile.session [ none ↦ [] | some id ↦ id ∷ [] ]) ++ session_ids tiles

abbrev pub stopped_ids : List (String × String) → List String
stopped_ids stops = map (λ stop. stop.0) stops

map-append :
    (xs ys : List (String × String)) → stopped_ids (xs ++ ys) ≡ stopped_ids xs ++ stopped_ids ys
map-append [] ys = refl
map-append (x ∷ xs) ys = ap (◌∷◌ x.0) (map-append xs ys)

all_stops_ids :
    (tiles : List Tile) (reason : String) → stopped_ids (all_stops tiles reason) ≡ session_ids tiles
unfolding all_stops
all_stops_ids [] reason = refl
all_stops_ids (t ∷ ts) reason = elim (Option-cases t.session) [
  | inl e ↦ rw e (all_stops_ids ts reason)
  | inr (id, e) ↦ rw e (ap (◌∷◌ id) (all_stops_ids ts reason))
]

-- Stopping all tiles asks, in order, for the stop of the session of every tile, and of no other.
pub stop_all_multiview-sessions :
    (reason : String) (s : Multiview)
    → stopped_ids (stop_all_multiview reason s).stops ≡ stopped_ids s.stops ++ session_ids s.tiles
unfolding stop_all_multiview
stop_all_multiview-sessions reason s =
    let why = if reason == "" then "stop_multiview" else reason in
    map-append s.stops (all_stops s.tiles why)
    ∙ ap (λ ids. stopped_ids s.stops ++ ids) (all_stops_ids s.tiles why)

keeps_channel :
    (by_id : String → Option Channel) (t : Tile)
    → is_some t.channel ≡ true
    → is_some (resolve_channel by_id (destroy_multiview_media t)).channel ≡ true
unfolding resolve_channel destroy_multiview_media
keeps_channel by_id t h = ground (
  arith,
  Option-cases
      (by_id (if own_channel_id t.channel == "" then t.channel_id else own_channel_id t.channel)),
)

page_session :
    (by_id : String → Option Channel) (t : Tile) (ids : List String)
    → (elim (resolve_channel by_id (destroy_multiview_media t)).session as (λ _. List String) [
      | none ↦ []
      | some id ↦ id ∷ []
    ])
        ++ ids
      ≡ (elim t.session as (λ _. List String) [ none ↦ [] | some id ↦ id ∷ [] ]) ++ ids
unfolding resolve_channel destroy_multiview_media
page_session by_id t ids = refl

page_sessions :
    (by_id : String → Option Channel) (n : ℕ) (tiles : List Tile)
    → All (λ t. is_some t.channel ≡ true) tiles
    → session_ids (shown_tiles by_id n tiles) ≡ session_ids (take n tiles)
unfolding shown_tiles
page_sessions by_id zero ts h = refl
page_sessions by_id (suc n) [] h = refl
page_sessions by_id (suc n) (t ∷ ts) h =
    rw (keeps_channel by_id t h.0, shown_tiles)
      (page_session by_id t (session_ids (shown_tiles by_id n ts))
        ∙ ap
            (λ ids. (elim t.session as (λ _. List String) [ none ↦ [] | some id ↦ id ∷ [] ]) ++ ids)
            (page_sessions by_id n ts h.1))

-- When every tile has a channel, a rendered page keeps the sessions of the tiles up to the limit
-- of the connection, and asks for no stop: the sessions of the tiles past the limit are neither
-- kept nor stopped.
pub render_multiview_page-sessions :
    (by_id : String → Option Channel) (connection_limit : ℕ) (s : Multiview)
    → All (λ t. is_some t.channel ≡ true) s.tiles
    → (session_ids (render_multiview_page by_id connection_limit s).tiles
        ≡ session_ids (take connection_limit s.tiles))
      × ((render_multiview_page by_id connection_limit s).stops ≡ s.stops)
unfolding render_multiview_page
render_multiview_page-sessions by_id connection_limit s h =
    (page_sessions by_id connection_limit s.tiles h, refl)
