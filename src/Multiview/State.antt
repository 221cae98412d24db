-- ===== src/Multiview/State.antt =====
-- The tiles of the multiview page and the operations on them. A media player is whether it is
-- there, and a request that stops a watch session is an element of `stops`. The single player, which
-- an added channel stops and a tile can open, is another part.
use silo_plugin_dispatcharr.Base.{
  ℕ, String, Bool, true, false, ◌&&◌, ◌||◌, not, Option, none, some, List, [], ◌∷◌, ◌++◌, map, leb,
  if◌then◌else◌, is_some, length, take, filter, string_eq, nat_eq, ◌==◌, contains,
}

pub record Channel : Type 0 where
  pub id : String
  pub name : String

pub record Tile : Type 0 where
  pub id : String
  pub channel_id : String
  pub channel : Option Channel
  pub video_id : String
  pub hls : Bool
  pub ts_player : Bool
  pub session : Option String
  pub attached : Bool

pub record Multiview : Type 0 where
  pub tiles : List Tile
  pub active_tile_id : String
  pub heartbeat : Bool
  pub stops : List (String × String)

-- `navigator.connection`, with what the pattern of the code says of the effective type.
pub record Connection : Type 0 where
  pub save_data : Bool
  pub is_2g : Bool
  pub effective_type : String

unfoldable pub multiview_connection_limit : Option Connection → ℕ
multiview_connection_limit none = 4
multiview_connection_limit (some connection) =
    if connection.save_data || connection.is_2g
    then 1
    else if connection.effective_type == "3g"
    then 2
    else 4

abbrev pub is_empty : List Tile → Bool
is_empty [] = true
is_empty (tile ∷ tiles) = false

abbrev pub tile_ids : List Tile → List String
tile_ids [] = []
tile_ids (tile ∷ tiles) = tile.id ∷ tile_ids tiles

-- `tiles[0] ? tiles[0].id : ""`
abbrev pub first_tile_id : List Tile → String
first_tile_id [] = ""
first_tile_id (tile ∷ tiles) = tile.id

unfoldable pub find_tile : (Tile → Bool) → List Tile → Option Tile
find_tile p [] = none
find_tile p (tile ∷ tiles) = if p tile then some tile else find_tile p tiles

unfoldable pub multiview_tile_by_id : List Tile → String → Option Tile
unfolding find_tile
multiview_tile_by_id tiles tile_id = find_tile (λ tile. tile.id == tile_id) tiles

unfoldable pub destroy_multiview_media : Tile → Tile
destroy_multiview_media tile = record tile { hls = false; ts_player = false; attached = false }

-- The tile with the audio, as `syncMultiviewAudio` settles it.
unfoldable pub sync_multiview_audio : Multiview → Multiview
sync_multiview_audio s =
    let kept = if is_empty s.tiles then "" else s.active_tile_id in
    record s { active_tile_id = if kept == "" then first_tile_id s.tiles else kept }

-- Whether `syncMultiviewAudio` leaves a tile unmuted.
abbrev pub has_audio : Multiview → Tile → Bool
has_audio s tile = tile.id == (sync_multiview_audio s).active_tile_id

-- The stops of one tile's session, and the tile without it.
abbrev pub session_stops : Tile → String → List (String × String)
session_stops tile reason = elim tile.session [ none ↦ [] | some id ↦ (id, reason) ∷ [] ]

abbrev pub stop_multiview_watch : Tile → String → Tile × List (String × String)
stop_multiview_watch tile reason = (record tile { session = none }, session_stops tile reason)

unfoldable pub all_stops : List Tile → String → List (String × String)
all_stops [] reason = []
all_stops (tile ∷ tiles) reason = (stop_multiview_watch tile reason).1 ++ all_stops tiles reason

unfoldable pub stop_all_multiview : String → Multiview → Multiview
stop_all_multiview reason s = record {
  tiles = [];
  active_tile_id = "";
  heartbeat = false;
  stops = s.stops ++ all_stops s.tiles (if reason == "" then "stop_multiview" else reason);
}

abbrev pub shows_channel : Channel → Tile → Bool
shows_channel channel tile = elim tile.channel [ none ↦ false | some c ↦ c.id == channel.id ]

abbrev pub new_tile : Channel → String → String → Tile
new_tile channel tile_key video_key = record {
  id = tile_key;
  channel_id = channel.id;
  channel = some channel;
  video_id = video_key;
  hls = false;
  ts_player = false;
  session = none;
  attached = false;
}

unfoldable pub focus_multiview_tile : String → Multiview → Multiview
unfolding multiview_tile_by_id sync_multiview_audio
focus_multiview_tile tile_id s = elim (multiview_tile_by_id s.tiles tile_id) [
  | none ↦ s
  | some tile ↦ sync_multiview_audio (record s { active_tile_id = tile_id })
]

-- The channel that the single player opens.
unfoldable pub open_multiview_tile_single : String → Multiview → Multiview × Option Channel
unfolding multiview_tile_by_id stop_all_multiview
open_multiview_tile_single tile_id s = elim (multiview_tile_by_id s.tiles tile_id) [
  | none ↦ (s, none)
  | some tile ↦ elim tile.channel [
    | none ↦ (s, none)
    | some channel ↦ (stop_all_multiview "open_single_player" s, some channel)
  ]
]

-- The active tile of a page that shows these tiles.
unfoldable pub settle_active : String → List Tile → String
settle_active active tiles =
    let started = if active == "" then first_tile_id tiles else active in
    if not (started == "") && not (contains (tile_ids tiles) started)
    then first_tile_id tiles
    else started

abbrev pub own_channel_id : Option Channel → String
own_channel_id none = ""
own_channel_id (some channel) = channel.id

module _ (channel_by_id : String → Option Channel) where
  -- `channelByID((tile.channel || {}).id || tile.channelID) || tile.channel`
  unfoldable pub resolve_channel : Tile → Tile
  resolve_channel tile =
      let own = own_channel_id tile.channel in
      record tile {
        channel = elim (channel_by_id (if own == "" then tile.channel_id else own)) [
          | none ↦ tile.channel
          | some c ↦ some c
        ];
      }

  -- The tiles that a page shows.
  unfoldable pub shown_tiles : ℕ → List Tile → List Tile
  unfolding resolve_channel destroy_multiview_media
  shown_tiles connection_limit tiles = take connection_limit (
      filter (λ tile. is_some tile.channel)
        (map (λ tile. resolve_channel (destroy_multiview_media tile)) tiles))

  -- `renderMultiviewPage` before the players are attached.
  unfoldable pub render_multiview_page : ℕ → Multiview → Multiview
  unfolding shown_tiles settle_active
  render_multiview_page connection_limit s =
      let tiles = shown_tiles connection_limit s.tiles in
      record s { tiles = tiles; active_tile_id = settle_active s.active_tile_id tiles }

  -- `addChannelToMultiview`, with the two keys that `multiviewTileKey` made.
  unfoldable pub add_channel_to_multiview : ℕ → Channel → String → String → Multiview → Multiview
  unfolding render_multiview_page find_tile
  add_channel_to_multiview connection_limit channel tile_key video_key s =
      render_multiview_page connection_limit (elim (find_tile (shows_channel channel) s.tiles) [
        | some existing ↦ record s { active_tile_id = existing.id }
        | none ↦ if leb connection_limit (length s.tiles) then s else record s {
          tiles = s.tiles ++ new_tile channel tile_key video_key ∷ [];
          active_tile_id = tile_key;
        }
      ])

  unfoldable pub remove_multiview_tile : ℕ → String → Multiview → Multiview
  unfolding multiview_tile_by_id render_multiview_page
  remove_multiview_tile connection_limit tile_id s = elim (multiview_tile_by_id s.tiles tile_id) [
    | none ↦ s
    | some tile ↦
        let rest = filter (λ item. not (item.id == tile_id)) s.tiles in
        render_multiview_page connection_limit (record s {
          tiles = rest;
          active_tile_id =
              if s.active_tile_id == tile_id then first_tile_id rest else s.active_tile_id;
          stops = s.stops ++ (stop_multiview_watch tile "remove_multiview_tile").1;
        })
  ]
