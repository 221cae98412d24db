-- ===== src/Multiview/Tests.antt =====
-- Runs of the multiview page at small values.
use silo_plugin_dispatcharr.Base.{
  String, ◌≡◌, refl, true, none, some, [], ◌∷◌, arith, length, filter, string_eq, nat_eq,
}
use silo_plugin_dispatcharr.Multiview.State.{
  Channel, Tile, Multiview, new_tile, has_audio, stop_all_multiview, render_multiview_page,
}
use silo_plugin_dispatcharr.Multiview.Invariant.{add, perform, IsMultiview}
use silo_plugin_dispatcharr.Multiview.Audio.{perform-IsMultiview, one_audio}
use silo_plugin_dispatcharr.Multiview.Sessions.{
  session_ids, stopped_ids, stop_all_multiview-sessions, render_multiview_page-sessions,
}

abbrev news : Channel
news = record { id = "c1"; name = "News" }

abbrev sports : Channel
sports = record { id = "c2"; name = "Sports" }

abbrev watched : Tile → String → Tile
watched tile id = record tile { session = some id; attached = true; hls = true }

-- Two tiles that play, the second with audio.
abbrev two_tiles : Multiview
two_tiles = record {
  tiles = watched (new_tile news "t1" "v1") "s1" ∷ watched (new_tile sports "t2" "v2") "s2" ∷ [];
  active_tile_id = "t2";
  heartbeat = true;
  stops = [];
}

two_tiles-IsMultiview : IsMultiview two_tiles
two_tiles-IsMultiview = record {
  distinct = (refl, (refl, tt));
  named = refl;
  few = omega arith;
  active = refl;
}

-- On a connection that allows one channel the page keeps the first tile.
slow : (render_multiview_page (λ _. none) 1 two_tiles).active_tile_id ≡ "t1"
unfolding render_multiview_page
slow = refl

perform-IsMultiview_example :
    IsMultiview
      (perform (λ _. none) (add none (record { id = "c3"; name = "" }) "t3" "v3") two_tiles)
perform-IsMultiview_example =
    perform-IsMultiview (λ _. none) (add none (record { id = "c3"; name = "" }) "t3" "v3") two_tiles
      (ground (arith, string_eq.beq_iff "t3" ""), refl) two_tiles-IsMultiview

one_audio_example : length (filter (has_audio two_tiles) two_tiles.tiles) ≡ 1
one_audio_example = one_audio two_tiles two_tiles-IsMultiview (omega arith)

two_sessions_stopped :
    stopped_ids (stop_all_multiview "clear_multiview" two_tiles).stops ≡ "s1" ∷ "s2" ∷ []
two_sessions_stopped = stop_all_multiview-sessions "clear_multiview" two_tiles

render_multiview_page-sessions_example :
    (session_ids (render_multiview_page (λ _. none) 1 two_tiles).tiles ≡ "s1" ∷ [])
    × ((render_multiview_page (λ _. none) 1 two_tiles).stops ≡ [])
render_multiview_page-sessions_example =
    render_multiview_page-sessions (λ _. none) 1 two_tiles (refl, (refl, tt))
