-- ===== src/Multiview/Invariant.antt =====
-- What holds of the tiles after any operations, and that a page keeps it.
use silo_plugin_dispatcharr.Base.{
  ℕ, zero, suc, ◌≤◌, String, ◌≡◌, refl, ap, ◌≢◌, Bool, true, false, Option, none, some, List, [],
  ◌∷◌, ◌++◌, map, arith, if◌then◌else◌, is_some, length, take, filter, length-take, string_eq,
  nat_eq, ◌==◌, beq_refl, beq_sym, contains, IsDistinct, contains-append, contains-take-false,
  take-IsDistinct,
}
use silo_plugin_dispatcharr.Multiview.State.{
  Channel, Tile, Multiview, Connection, multiview_connection_limit, is_empty, tile_ids,
  first_tile_id, multiview_tile_by_id, destroy_multiview_media, sync_multiview_audio,
  stop_all_multiview, resolve_channel, shown_tiles, settle_active, render_multiview_page,
  add_channel_to_multiview, focus_multiview_tile, remove_multiview_tile, open_multiview_tile_single,
}

-- What the viewer does, with the connection at that time and the keys made for a new tile.
pub data Action : Type 0 where
  add : Option Connection → Channel → String → String → Action
  focus single : String → Action
  remove : Option Connection → String → Action
  clear show : Option Connection → Action

unfoldable pub perform : (String → Option Channel) → Action → Multiview → Multiview
perform by_id (add connection channel tile_key video_key) s =
    add_channel_to_multiview by_id (multiview_connection_limit connection) channel tile_key
      video_key s
perform by_id (focus tile_id) s = focus_multiview_tile tile_id s
perform by_id (single tile_id) s = (open_multiview_tile_single tile_id s).0
perform by_id (remove connection tile_id) s =
    remove_multiview_tile by_id (multiview_connection_limit connection) tile_id s
perform by_id (clear connection) s =
    render_multiview_page by_id (multiview_connection_limit connection)
      (stop_all_multiview "clear_multiview" s)
perform by_id (show connection) s =
    render_multiview_page by_id (multiview_connection_limit connection) s

-- The active tile is on the page, or the page is empty.
abbrev pub IsActive : List Tile → String → Type 0
IsActive [] active = active ≡ ""
IsActive (tile ∷ tiles) active = contains (tile_ids (tile ∷ tiles)) active ≡ true

pub record IsMultiview (s : Multiview) : Type 0 where
  pub distinct : IsDistinct (tile_ids s.tiles)
  pub named : contains (tile_ids s.tiles) "" ≡ false
  pub few : length s.tiles ≤ 4
  pub active : IsActive s.tiles s.active_tile_id

-- A new tile's key is not empty and not in use.
abbrev pub IsFresh : Multiview → Action → Type 0
IsFresh s (add connection channel tile_key video_key) =
    (tile_key ≢ "") × (contains (tile_ids s.tiles) tile_key ≡ false)
IsFresh s _ = Unit

pub multiview_connection_limit-bound : (c : Option Connection) → multiview_connection_limit c ≤ 4
unfolding multiview_connection_limit
multiview_connection_limit-bound none = omega arith
multiview_connection_limit-bound (some c) = ground arith

-- The tiles of a page are some of those before it, by their identifiers.
pub tile_ids-filter :
    (p : Tile → Bool) (tiles : List Tile) (a : String)
    → contains (tile_ids tiles) a ≡ false
    → contains (tile_ids (filter p tiles)) a ≡ false
tile_ids-filter p [] a h = refl
tile_ids-filter p (t ∷ ts) a h = ground (arith, tile_ids-filter p ts a)

pub tile_ids-filter-IsDistinct :
    (p : Tile → Bool) (tiles : List Tile)
    → IsDistinct (tile_ids tiles)
    → IsDistinct (tile_ids (filter p tiles))
tile_ids-filter-IsDistinct p [] h = tt
tile_ids-filter-IsDistinct p (t ∷ ts) h =
    ground (arith, tile_ids-filter-IsDistinct p ts h.1, tile_ids-filter p ts t.id h.0)

tile_ids-take : (n : ℕ) (tiles : List Tile) → tile_ids (take n tiles) ≡ take n (tile_ids tiles)
tile_ids-take zero ts = refl
tile_ids-take (suc n) [] = refl
tile_ids-take (suc n) (t ∷ ts) = ap (◌∷◌ t.id) (tile_ids-take n ts)

module _ (by_id : String → Option Channel) where
  page_tile : Tile → Tile
  page_tile t = resolve_channel by_id (destroy_multiview_media t)

  tile_ids-page : (tiles : List Tile) → tile_ids (map page_tile tiles) ≡ tile_ids tiles
  unfolding page_tile resolve_channel destroy_multiview_media
  tile_ids-page [] = refl
  tile_ids-page (t ∷ ts) = ap (◌∷◌ t.id) (tile_ids-page ts)

  shown_tiles-contains :
      (n : ℕ) (tiles : List Tile) (a : String)
      → contains (tile_ids tiles) a ≡ false
      → contains (tile_ids (shown_tiles by_id n tiles)) a ≡ false
  unfolding shown_tiles page_tile
  shown_tiles-contains n ts a h =
      let with_channel = filter (λ t. is_some t.channel) (map page_tile ts) in
      rw (tile_ids-take n with_channel) (
        contains-take-false n (tile_ids with_channel) a
          (tile_ids-filter (λ t. is_some t.channel) (map page_tile ts) a (rw (tile_ids-page ts) h)))

  shown_tiles-IsDistinct :
      (n : ℕ) (tiles : List Tile)
      → IsDistinct (tile_ids tiles)
      → IsDistinct (tile_ids (shown_tiles by_id n tiles))
  unfolding shown_tiles page_tile
  shown_tiles-IsDistinct n ts h =
      let with_channel = filter (λ t. is_some t.channel) (map page_tile ts) in
      rw (tile_ids-take n with_channel) (
        take-IsDistinct n (tile_ids with_channel) (
          tile_ids-filter-IsDistinct (λ t. is_some t.channel) (map page_tile ts)
            (rw (tile_ids-page ts) h)))

  length-shown_tiles : (n : ℕ) (tiles : List Tile) → length (shown_tiles by_id n tiles) ≤ n
  unfolding shown_tiles page_tile
  length-shown_tiles n ts =
      omega (arith, length-take n (filter (λ t. is_some t.channel) (map page_tile ts)))

settle_active-IsActive :
    (active : String) (tiles : List Tile) → IsActive tiles (settle_active active tiles)
unfolding settle_active
settle_active-IsActive active [] = ground (arith, string_eq.beq_iff active "")
settle_active-IsActive active (t ∷ ts) = ground (arith, beq_refl t.id, string_eq.beq_iff active "")

pub tile_ids-append :
    (tiles : List Tile) (t : Tile) → tile_ids (tiles ++ t ∷ []) ≡ tile_ids tiles ++ t.id ∷ []
tile_ids-append [] t = refl
tile_ids-append (x ∷ xs) t = ap (◌∷◌ x.id) (tile_ids-append xs t)

pub IsDistinct-append :
    (xs : List String) (a : String)
    → IsDistinct xs
    → contains xs a ≡ false
    → IsDistinct (xs ++ a ∷ [])
IsDistinct-append [] a h n = (refl, tt)
IsDistinct-append (x ∷ xs) a h n =
    ground (arith, IsDistinct-append xs a h.1, contains-append xs (a ∷ []) x, beq_sym x a)

pub find-contains :
    (tiles : List Tile) (tile_id : String) (t : Tile)
    → multiview_tile_by_id tiles tile_id ≡ some t
    → contains (tile_ids tiles) tile_id ≡ true
unfolding multiview_tile_by_id
find-contains [] tile_id t e = ground arith
find-contains (x ∷ xs) tile_id t e = ground (arith, find-contains xs tile_id t)

pub render-IsMultiview :
    (by_id : String → Option Channel) (n : ℕ) (s : Multiview)
    → n ≤ 4
    → IsDistinct (tile_ids s.tiles)
    → contains (tile_ids s.tiles) "" ≡ false
    → IsMultiview (render_multiview_page by_id n s)
unfolding render_multiview_page
render-IsMultiview by_id n s h d named = record {
  distinct = shown_tiles-IsDistinct by_id n s.tiles d;
  named = shown_tiles-contains by_id n s.tiles "" named;
  few = omega (arith, length-shown_tiles by_id n s.tiles);
  active = settle_active-IsActive s.active_tile_id (shown_tiles by_id n s.tiles);
}

pub settled :
    (tiles : List Tile) (active : String)
    → contains (tile_ids tiles) active ≡ true
    → let kept = if is_empty tiles then "" else active in
      IsActive tiles (if kept == "" then first_tile_id tiles else kept)
settled [] active h = absurd (ground arith)
settled (t ∷ ts) active h = ground (arith, beq_refl t.id, string_eq.beq_iff active "")

pub sync-IsActive :
    (s : Multiview)
    → contains (tile_ids s.tiles) s.active_tile_id ≡ true
    → IsActive s.tiles (sync_multiview_audio s).active_tile_id
unfolding sync_multiview_audio
sync-IsActive s h = settled s.tiles s.active_tile_id h
