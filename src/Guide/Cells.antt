-- ===== src/Guide/Cells.antt =====
-- `renderEPGCells`: one channel's row of the guide as cells of programs and gaps. The markup of a
-- cell is left out: a cell is what it shows and the time that it covers.
use silo_plugin_dispatcharr.Base.{
  ℕ, ◌+◌, ◌≤◌, ◌<◌, min, max, String, ◌≡◌, refl, inl, inr, Bool, ◌&&◌, ◌||◌, List, [], ◌∷◌, ◌++◌,
  map, arith, ltb, leb, nat_beq, if◌then◌else◌, Bool-cases, filter, All, All-filter, nat_eq,
  string_eq, sort_by, sort_by-All,
}

pub record Program : Type 0 where
  pub title : String
  pub start_unix : ℕ
  pub end_unix : ℕ

-- A program clamped to the guide's window.
pub record Entry : Type 0 where
  pub program : Program
  pub start : ℕ
  pub stop : ℕ
  pub matches_query : Bool

pub data Cell : Type 0 where
  gap : ℕ → ℕ → Cell
  shows : Program → ℕ → ℕ → Cell

-- `x || fallback` on a number.
abbrev pub or_number : ℕ → ℕ → ℕ
or_number x fallback = if nat_beq x 0 then fallback else x

module _ (channel_matched : Bool) (program_matches_query : Program → Bool)
    (window_start window_end : ℕ) where
  unfoldable pub clamp : Program → Entry
  clamp program =
      let raw_start = or_number program.start_unix window_start in
      let raw_end = or_number program.end_unix (raw_start + 1800) in
      record {
        program = program;
        start = max raw_start window_start;
        stop = min raw_end window_end;
        matches_query = channel_matched || program_matches_query program;
      }

  unfoldable pub is_shown : Entry → Bool
  is_shown entry = entry.matches_query && ltb window_start entry.stop && ltb entry.start window_end

-- The order of the cells: by start, then by end.
abbrev pub goes_before : Entry → Entry → Bool
goes_before a b = ltb a.start b.start || (nat_beq a.start b.start && ltb a.stop b.stop)

-- `renderEPGGapCell` gives nothing for an empty gap.
abbrev pub gap_cells : ℕ → ℕ → List Cell
gap_cells start stop = if leb stop start then [] else gap start stop ∷ []

-- The loop over the entries, with the time up to which cells were made.
unfoldable pub fill_cells : ℕ → ℕ → List Entry → List Cell
fill_cells window_end cursor [] = gap_cells cursor window_end
fill_cells window_end cursor (entry ∷ rest) =
    let start = max entry.start cursor in
    let skip = leb entry.stop start in
    let more = fill_cells window_end (if skip then cursor else entry.stop) rest in
    if skip then more else gap_cells cursor start ++ (shows entry.program start entry.stop ∷ more)

unfoldable pub epg_cells : Bool → (Program → Bool) → ℕ → ℕ → List Program → List Cell
epg_cells channel_matched program_matches_query window_start window_end programs =
    fill_cells window_end window_start (
      sort_by goes_before (
        filter (is_shown channel_matched program_matches_query window_start window_end)
          (map (clamp channel_matched program_matches_query window_start window_end) programs)))

-- The cells follow one another without a hole or an overlap, from one time to another.
abbrev pub Tiles : ℕ → List Cell → ℕ → Type 0
Tiles from [] to = from ≡ to
Tiles from (gap start stop ∷ cells) to = (start ≡ from) × (start < stop) × Tiles stop cells to
Tiles from (shows p start stop ∷ cells) to = (start ≡ from) × (start < stop) × Tiles stop cells to

abbrev EndsBy : ℕ → Entry → Type 0
EndsBy window_end e = e.stop ≤ window_end

gap_cells-Tiles :
    (start stop to : ℕ) (cells : List Cell)
    → start ≤ stop
    → Tiles stop cells to
    → Tiles start (gap_cells start stop ++ cells) to
gap_cells-Tiles start stop to cells h t = ground arith

fill_cells-Tiles :
    (window_end cursor : ℕ) (entries : List Entry)
    → cursor ≤ window_end
    → All (EndsBy window_end) entries
    → Tiles cursor (fill_cells window_end cursor entries) window_end
unfolding fill_cells
fill_cells-Tiles window_end cursor [] h a = ground arith
fill_cells-Tiles window_end cursor (e ∷ rest) h a =
    elim (Bool-cases (leb e.stop (max e.start cursor))) [
      | inl skip ↦ rw skip (fill_cells-Tiles window_end cursor rest h a.1)
      | inr shown ↦ rw shown (
          gap_cells-Tiles cursor (max e.start cursor) window_end _ (omega arith)
            (refl, ground arith, fill_cells-Tiles window_end e.stop rest a.0 a.1))
    ]

map-clamp-All :
    (b : Bool) (q : Program → Bool) (window_start window_end : ℕ) (ps : List Program)
    → All (EndsBy window_end) (map (clamp b q window_start window_end) ps)
unfolding clamp
map-clamp-All b q window_start window_end [] = tt
map-clamp-All b q window_start window_end (p ∷ ps) =
    (omega arith, map-clamp-All b q window_start window_end ps)

-- Whatever programs a channel has, the cells of its row follow one another without a hole or an
-- overlap from the start of the window to its end, none of them empty, for a window whose start
-- is not behind its end.
pub epg_cells-Tiles :
    (channel_matched : Bool) (program_matches_query : Program → Bool) (window_start window_end : ℕ)
    (programs : List Program)
    → window_start ≤ window_end
    → Tiles window_start
        (epg_cells channel_matched program_matches_query window_start window_end programs)
        window_end
unfolding epg_cells
epg_cells-Tiles b q window_start window_end ps h = fill_cells-Tiles window_end window_start _ h (
    sort_by-All goes_before (EndsBy window_end) _ (
      All-filter (EndsBy window_end) (is_shown b q window_start window_end) _
        (map-clamp-All b q window_start window_end ps)))
