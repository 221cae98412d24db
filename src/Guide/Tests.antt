-- ===== src/Guide/Tests.antt =====
-- Runs of the guide at small values.
use silo_plugin_dispatcharr.Base.{
  ℕ, ◌+◌, ◌≤◌, ◌<◌, ◌≡◌, refl, true, false, some, [], ◌∷◌, arith, get_elem?, nat_eq, string_eq,
  sort_by,
}
use silo_plugin_dispatcharr.Guide.Range.{
  ceil_div, guide_visible_range, guide_visible_range_bounds, guide_visible_range_covers,
  visible_rows,
}
use silo_plugin_dispatcharr.Guide.Cells.{
  fill_cells, is_shown, clamp, Program, gap, shows, epg_cells, Tiles, epg_cells-Tiles,
}
use silo_plugin_dispatcharr.Guide.Nearest.{
  GridCell, time_gap, guide_cell_index_at_time, guide_cell_index_at_time_nearest,
}
use silo_plugin_dispatcharr.Guide.Search.{
  search_channels, key_beq, is_candidate, accept, search_channel, SearchProgram, SearchChannel,
  TextOps, search_limit, guide_search_programs,
}
use silo_plugin_dispatcharr.Guide.Best.{
  IsBest, distinct_from, all_matches, guide_search_programs-IsBest,
}

abbrev news : Program
news = record { title = "News"; start_unix = 900; end_unix = 2000 }

abbrev film : Program
film = record { title = "Film"; start_unix = 1800; end_unix = 3000 }

-- Two programs that overlap, the first begun before the window.
two_programs :
    epg_cells true (λ _. true) 1000 4000 (film ∷ news ∷ [])
    ≡ shows news 1000 2000 ∷ shows film 2000 3000 ∷ gap 3000 4000 ∷ []
unfolding epg_cells fill_cells sort_by is_shown clamp
two_programs = refl

epg_cells-Tiles_example : Tiles 1000 (epg_cells true (λ _. true) 1000 4000 (film ∷ news ∷ [])) 4000
epg_cells-Tiles_example =
    epg_cells-Tiles true (λ _. true) 1000 4000 (film ∷ news ∷ []) (omega arith)

rows_in_list :
    let r = guide_visible_range 500 9000 600 60 30 in
    (r.first ≤ r.last) × (r.last ≤ 500) × (r.last ≤ r.first + 40)
rows_in_list = guide_visible_range_bounds 500 9000 600 60 30

rows_are_covered :
    let r = guide_visible_range 500 9000 600 60 30 in (r.first ≤ 150) × (150 < r.last)
unfolding visible_rows ceil_div
rows_are_covered =
    guide_visible_range_covers 500 9000 600 60 30 150 (omega arith) (omega arith) (omega arith)
      (omega arith) (omega arith)

abbrev channel_cell : GridCell
channel_cell = record { is_channel = true; start_unix = 0; end_unix = 0 }

abbrev program_cell : GridCell
program_cell = record { is_channel = false; start_unix = 1000; end_unix = 2000 }

nearest_cell :
    (cell : GridCell) × (get_elem?
        (channel_cell ∷ program_cell ∷ [])
        (guide_cell_index_at_time (channel_cell ∷ program_cell ∷ []) 2500)
      ≡ some cell)
    × (cell.is_channel ≡ false)
    × ((k : ℕ) (other : GridCell)
        → get_elem? (channel_cell ∷ program_cell ∷ []) k ≡ some other
        → other.is_channel ≡ false
        → time_gap 2500 cell ≤ time_gap 2500 other)
nearest_cell =
    guide_cell_index_at_time_nearest (channel_cell ∷ program_cell ∷ []) 2500 1 program_cell refl
      refl

-- Every text matches.
abbrev any_text : TextOps
any_text = record {
  trim = λ s. s;
  to_lower = λ s. s;
  text_length = λ _. 4;
  has_text = λ _ _. true;
  join_words = λ s _. s;
  is_placeholder = λ _. false;
}

abbrev match_day : SearchProgram
match_day = record {
  id = "p1";
  title = "Match day";
  description = "";
  start_unix = 1200;
  end_unix = 2400;
}

abbrev sports_channel : SearchChannel
sports_channel = record { id = "c1"; programs = match_day ∷ match_day ∷ [] }

-- A program that is listed twice is found once.
one_found : (guide_search_programs any_text (sports_channel ∷ []) "match" 1000 4000 20).total ≡ 1
unfolding guide_search_programs search_channels search_channel is_candidate accept key_beq
one_found = refl

guide_search_programs-IsBest_example :
    IsBest 1000
      (search_limit 20)
      (distinct_from [] (all_matches any_text "match" 1000 4000 0 (sports_channel ∷ [])))
      (guide_search_programs any_text (sports_channel ∷ []) "match" 1000 4000 20)
guide_search_programs-IsBest_example =
    guide_search_programs-IsBest any_text (sports_channel ∷ []) "match" 1000 4000 20 (omega arith)
