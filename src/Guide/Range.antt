-- ===== src/Guide/Range.antt =====
-- `guideVisibleRange`: the rows of the guide that are rendered at a scroll position.
use native.Mathlib.Nat.{div-add-mod, mod-lt}
use native.Mathlib.Decide.{dec_lt}
use silo_plugin_dispatcharr.Base.{
  ℕ, ◌+◌, ◌-◌, ◌*◌, ◌/◌, ◌≤◌, ◌<◌, min, max, arith, leb, if◌then◌else◌, nat_eq, string_eq,
}

pub record RowRange : Type 0 where
  pub first : ℕ
  pub last : ℕ

abbrev pub guide_window_overscan : ℕ
guide_window_overscan = 8

-- Math.ceil(a / b)
unfoldable pub ceil_div : ℕ → ℕ → ℕ
ceil_div a b = (a + b - 1) / b

unfoldable pub visible_rows : ℕ → ℕ → ℕ
visible_rows viewport_height row_height = max 1 (ceil_div viewport_height row_height)

unfoldable pub guide_visible_range : ℕ → ℕ → ℕ → ℕ → ℕ → RowRange
guide_visible_range total_rows scroll_top viewport_height row_height header_height =
    let visible = visible_rows viewport_height row_height in
    let rows_scroll_top = scroll_top - header_height in
    let first = min (total_rows - visible) (rows_scroll_top / row_height - guide_window_overscan) in
    if leb total_rows 0 then record { first = 0; last = 0 } else record {
      first = first;
      last = min total_rows (first + min 40 (visible + guide_window_overscan * 2));
    }

-- The rendered rows lie in the list, and they are at most forty.
pub guide_visible_range_bounds :
    (total_rows scroll_top viewport_height row_height header_height : ℕ)
    → let r = guide_visible_range total_rows scroll_top viewport_height row_height header_height in
      (r.first ≤ r.last) × (r.last ≤ total_rows) × (r.last ≤ r.first + 40)
unfolding guide_visible_range
guide_visible_range_bounds total scroll viewport row header = ground arith

visible_rows_pos : (v r : ℕ) → 0 < visible_rows v r
unfolding visible_rows
visible_rows_pos v r = omega arith

-- `visible` rows of the guide reach at least as far as the viewport.
visible_rows_cover : (v r : ℕ) → 0 < r → v ≤ visible_rows v r * r
unfolding visible_rows ceil_div
visible_rows_cover v r h = grind (arith, div-add-mod (v + r - 1) r, mod-lt (v + r - 1) h)

lt_of_mul_lt : (a b r : ℕ) → a * r < b * r → a < b
lt_of_mul_lt a b r h = elim (dec_lt a b) [ yes p ↦ p | no p ↦ absurd (grind arith) ]

div_mul_le : (s r : ℕ) → (s / r) * r ≤ s
div_mul_le s r = grind (arith, div-add-mod s r)

lt_div_mul : (s r : ℕ) → 0 < r → s < (s / r + 1) * r
lt_div_mul s r h = grind (arith, div-add-mod s r, mod-lt s h)

-- The rows that show lie between the first one and `visible` rows further.
row_bounds :
    (s v r i : ℕ)
    → 0 < r
    → s < (i + 1) * r
    → i * r < s + v
    → (s / r ≤ i) × (i < s / r + 1 + visible_rows v r)
row_bounds s v r i h above below =
    let low : s / r < i + 1 = lt_of_mul_lt (s / r) (i + 1) r (omega (arith, div_mul_le s r)) in
    let high : i < s / r + 1 + visible_rows v r =
      lt_of_mul_lt i (s / r + 1 + visible_rows v r) r
        (omega (arith, lt_div_mul s r h, visible_rows_cover v r h)) in
    (omega arith, high)

-- Every row that shows in the viewport is rendered, for rows of a height above zero and a
-- viewport of at most 31 rows.
pub guide_visible_range_covers :
    (total_rows scroll_top viewport_height row_height header_height i : ℕ)
    → 0 < row_height
    → visible_rows viewport_height row_height ≤ 31
    → i < total_rows
    → scroll_top - header_height < (i + 1) * row_height
    → i * row_height < (scroll_top - header_height) + viewport_height
    → let r = guide_visible_range total_rows scroll_top viewport_height row_height header_height in
      (r.first ≤ i) × (i < r.last)
unfolding guide_visible_range
guide_visible_range_covers total scroll viewport row header i pos few inside above below =
    let b = row_bounds (scroll - header) viewport row i pos above below in ground (arith, b)
