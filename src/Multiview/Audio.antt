-- ===== src/Multiview/Audio.antt =====
-- Which tile has the audio, and how many tiles there are, after any operations.
use silo_plugin_dispatcharr.Base.{
  ℕ, ◌≤◌, ◌<◌, String, ◌≡◌, refl, ◌∙◌, ◌≢◌, inl, inr, true, false, not, Option, List, [], ◌∷◌, ◌++◌,
  arith, leb, if◌then◌else◌, Bool-cases, Option-cases, length, filter, string_eq, nat_eq, ◌==◌,
  beq_of_ne, contains, IsDistinct, contains-append,
}
use silo_plugin_dispatcharr.Multiview.State.{
  Channel, Tile, Multiview, multiview_connection_limit, tile_ids, first_tile_id, find_tile,
  multiview_tile_by_id, sync_multiview_audio, has_audio, stop_multiview_watch, stop_all_multiview,
  shows_channel, new_tile, add_channel_to_multiview, focus_multiview_tile, remove_multiview_tile,
  open_multiview_tile_single,
}
use silo_plugin_dispatcharr.Multiview.Invariant.{
  Action, add, focus, remove, single, clear, show, perform, IsActive, IsMultiview, IsFresh,
  IsDistinct-append, tile_ids-append, tile_ids-filter, tile_ids-filter-IsDistinct, find-contains,
  render-IsMultiview, sync-IsActive, multiview_connection_limit-bound,
}

add-IsMultiview :
    (by_id : String → Option Channel) (n : ℕ) (c : Channel) (key video : String) (s : Multiview)
    → n ≤ 4
    → key ≢ ""
    → contains (tile_ids s.tiles) key ≡ false
    → IsMultiview s
    → IsMultiview (add_channel_to_multiview by_id n c key video s)
unfolding add_channel_to_multiview
add-IsMultiview by_id n c key video s few ne fresh h =
    elim (Option-cases (find_tile (shows_channel c) s.tiles)) [
      | inr (t, e) ↦
          rw (e, add_channel_to_multiview)
            (render-IsMultiview by_id n (record s { active_tile_id = t.id }) few h.distinct h.named)
      | inl e ↦ elim (Bool-cases (leb n (length s.tiles))) [
        | inl full ↦
            rw (e, add_channel_to_multiview) rw full
              (render-IsMultiview by_id n s few h.distinct h.named)
        | inr room ↦
            rw (e, add_channel_to_multiview) rw room
              (render-IsMultiview by_id n
                (record s { tiles = s.tiles ++ new_tile c key video ∷ []; active_tile_id = key })
                few
                (rw (tile_ids-append s.tiles (new_tile c key video))
                  (IsDistinct-append (tile_ids s.tiles) key h.distinct fresh))
                (rw (tile_ids-append s.tiles (new_tile c key video)) (
                  ground (
                    arith,
                    h.named,
                    contains-append (tile_ids s.tiles) (key ∷ []) "",
                    beq_of_ne key "" ne,
                  ))))
      ]
    ]

remove-IsMultiview :
    (by_id : String → Option Channel) (n : ℕ) (tile_id : String) (s : Multiview)
    → n ≤ 4
    → IsMultiview s
    → IsMultiview (remove_multiview_tile by_id n tile_id s)
unfolding remove_multiview_tile
remove-IsMultiview by_id n tile_id s few h =
    let rest = filter (λ item. not (item.id == tile_id)) s.tiles in
    elim (Option-cases (multiview_tile_by_id s.tiles tile_id)) [
      | inl e ↦ rw (e, remove_multiview_tile) h
      | inr (t, e) ↦
          rw (e, remove_multiview_tile)
            (render-IsMultiview by_id n
              (record {
                tiles = rest;
                active_tile_id =
                    if s.active_tile_id == tile_id then first_tile_id rest else s.active_tile_id;
                heartbeat = s.heartbeat;
                stops = s.stops ++ (stop_multiview_watch t "remove_multiview_tile").1;
              })
              few (tile_ids-filter-IsDistinct (λ item. not (item.id == tile_id)) s.tiles h.distinct)
              (tile_ids-filter (λ item. not (item.id == tile_id)) s.tiles "" h.named))
    ]

focus-IsMultiview :
    (tile_id : String) (s : Multiview)
    → IsMultiview s
    → IsMultiview (focus_multiview_tile tile_id s)
unfolding focus_multiview_tile sync_multiview_audio
focus-IsMultiview tile_id s h = elim (Option-cases (multiview_tile_by_id s.tiles tile_id)) [
  | inl e ↦ rw (e, focus_multiview_tile) h
  | inr (t, e) ↦
      rw (e, focus_multiview_tile)
        (record {
          distinct = h.distinct;
          named = h.named;
          few = h.few;
          active =
              sync-IsActive (record s { active_tile_id = tile_id })
                (find-contains s.tiles tile_id t e);
        })
]

stop_all-IsMultiview : (reason : String) (s : Multiview) → IsMultiview (stop_all_multiview reason s)
unfolding stop_all_multiview
stop_all-IsMultiview reason s = record {
  distinct = tt;
  named = refl;
  few = omega arith;
  active = refl;
}

single-IsMultiview :
    (tile_id : String) (s : Multiview)
    → IsMultiview s
    → IsMultiview (open_multiview_tile_single tile_id s).0
unfolding open_multiview_tile_single
single-IsMultiview tile_id s h = elim (Option-cases (multiview_tile_by_id s.tiles tile_id)) [
  | inl e ↦ rw (e, open_multiview_tile_single) h
  | inr (t, e) ↦ elim (Option-cases t.channel) [
    | inl none_e ↦ rw (e, open_multiview_tile_single) rw none_e h
    | inr (c, some_e) ↦
        rw (e, open_multiview_tile_single) rw some_e (stop_all-IsMultiview "open_single_player" s)
  ]
]

-- Whatever the viewer does on the multiview page, on any connection, the tiles keep distinct
-- identifiers that are not empty, there are at most four, and the active tile is one of them, or
-- none on an empty page; the key of an added tile is taken to be new and not empty.
pub perform-IsMultiview :
    (by_id : String → Option Channel) (action : Action) (s : Multiview)
    → IsFresh s action
    → IsMultiview s
    → IsMultiview (perform by_id action s)
unfolding perform
perform-IsMultiview by_id (add connection c key video) s fresh h =
    add-IsMultiview by_id (multiview_connection_limit connection) c key video s
      (multiview_connection_limit-bound connection) fresh.0 fresh.1 h
perform-IsMultiview by_id (focus tile_id) s fresh h = focus-IsMultiview tile_id s h
perform-IsMultiview by_id (single tile_id) s fresh h = single-IsMultiview tile_id s h
perform-IsMultiview by_id (remove connection tile_id) s fresh h =
    remove-IsMultiview by_id (multiview_connection_limit connection) tile_id s
      (multiview_connection_limit-bound connection) h
perform-IsMultiview by_id (clear connection) s fresh h =
    let stopped = stop_all_multiview "clear_multiview" s in
    let empty = stop_all-IsMultiview "clear_multiview" s in
    render-IsMultiview by_id (multiview_connection_limit connection) stopped
      (multiview_connection_limit-bound connection) empty.distinct empty.named
perform-IsMultiview by_id (show connection) s fresh h =
    render-IsMultiview by_id (multiview_connection_limit connection) s
      (multiview_connection_limit-bound connection) h.distinct h.named

-- The tiles that one identifier names.
named_once :
    (tiles : List Tile) (a : String)
    → IsDistinct (tile_ids tiles)
    → length (filter (λ t. t.id == a) tiles) ≡ (if contains (tile_ids tiles) a then 1 else 0)
named_once [] a h = refl
named_once (t ∷ ts) a h = ground (arith, named_once ts a h.1, string_eq.beq_iff t.id a, h.0)

active_contains :
    (tiles : List Tile) (a : String)
    → IsActive tiles a
    → 0 < length tiles
    → contains (tile_ids tiles) a ≡ true
active_contains [] a h l = absurd (omega arith)
active_contains (t ∷ ts) a h l = h

-- On a page in that state with at least one tile, exactly one tile is unmuted.
pub one_audio :
    (s : Multiview) → IsMultiview s → 0 < length s.tiles → length (filter (has_audio s) s.tiles) ≡ 1
one_audio s h some_tile =
    let a = (sync_multiview_audio s).active_tile_id in
    let was : contains (tile_ids s.tiles) s.active_tile_id ≡ true =
      active_contains s.tiles s.active_tile_id h.active some_tile in
    let now : contains (tile_ids s.tiles) a ≡ true =
      active_contains s.tiles a (sync-IsActive s was) some_tile in
    named_once s.tiles a h.distinct ∙ rw now refl
