-- ===== src/Guide/Nearest.antt =====
-- `guideCellIndexAtTime`: the cell of a row that is nearest to a time, for keyboard movement
-- between rows.
use mathlib.Core.Path.{subst}
use silo_plugin_dispatcharr.Base.{
  ℕ, zero, suc, ◌+◌, ◌-◌, ◌≤◌, ◌≡◌, refl, ◌⊎◌, inl, inr, Bool, true, false, ◌&&◌, not, Option, none,
  some, List, [], ◌∷◌, arith, ltb, leb, nat_beq, if◌then◌else◌, Bool-cases, Option-cases, get_elem?,
  nat_eq, string_eq,
}

pub record GridCell : Type 0 where
  pub is_channel : Bool
  pub start_unix : ℕ
  pub end_unix : ℕ

unfoldable pub cell_end : GridCell → ℕ
cell_end cell = if nat_beq cell.end_unix 0 then cell.start_unix + 1800 else cell.end_unix

-- How far a time is outside a cell.
unfoldable pub time_gap : ℕ → GridCell → ℕ
unfolding cell_end
time_gap time cell =
    if ltb time cell.start_unix
    then cell.start_unix - time
    else if leb (cell_end cell) time
    then time - cell_end cell + 1
    else 0

-- `best` and `distance` of the loop; `none` is -1 and Infinity.
abbrev pub improves : ℕ → Option (ℕ × ℕ) → Bool
improves gap none = true
improves gap (some (index, distance)) = ltb gap distance

unfoldable pub nearest_from : ℕ → ℕ → Option (ℕ × ℕ) → List GridCell → Option (ℕ × ℕ)
nearest_from time index best [] = best
nearest_from time index best (cell ∷ cells) =
    nearest_from time (index + 1)
      (if not cell.is_channel && improves (time_gap time cell) best
        then some (index, time_gap time cell)
        else best)
      cells

unfoldable pub guide_cell_index_at_time : List GridCell → ℕ → ℕ
guide_cell_index_at_time cells time = elim (nearest_from time 0 none cells) [
  | none ↦ 0
  | some (index, distance) ↦ index
]

-- No distance seen so far is below the best one.
abbrev pub AtMost : Option (ℕ × ℕ) → ℕ → Type 0
AtMost none d = ⊥
AtMost (some (index, distance)) d = distance ≤ d

-- `best` is a cell of the row at its distance.
abbrev pub IsAt : ℕ → List GridCell → ℕ → ℕ → Type 0
IsAt time cells index distance =
    (cell : GridCell) × (get_elem? cells index ≡ some cell)
    × (cell.is_channel ≡ false)
    × (time_gap time cell ≡ distance)

nearest_from_mono :
    (time index d : ℕ) (best : Option (ℕ × ℕ)) (cells : List GridCell)
    → AtMost best d
    → AtMost (nearest_from time index best cells) d
unfolding nearest_from
nearest_from_mono time index d best [] h = h
nearest_from_mono time index d none (c ∷ cs) h = absurd h
nearest_from_mono time index d (some (i, e)) (c ∷ cs) h = ground (
  arith,
  nearest_from_mono time (index + 1) d (some (i, e)) cs,
  nearest_from_mono time (index + 1) d (some (index, time_gap time c)) cs,
)

better-AtMost :
    (time index : ℕ) (best : Option (ℕ × ℕ)) (c : GridCell)
    → c.is_channel ≡ false
    → AtMost
        (if not c.is_channel && improves (time_gap time c) best
          then some (index, time_gap time c)
          else best)
        (time_gap time c)
better-AtMost time index none c h = ground arith
better-AtMost time index (some (i, d)) c h = ground arith

nearest_from-least :
    (time index j : ℕ) (best : Option (ℕ × ℕ)) (cells : List GridCell) (c : GridCell)
    → get_elem? cells j ≡ some c
    → c.is_channel ≡ false
    → AtMost (nearest_from time index best cells) (time_gap time c)
unfolding nearest_from
nearest_from-least time index j best [] c e h = cc
nearest_from-least time index zero best (x ∷ xs) c e h =
    let same : x ≡ c = cc in
    nearest_from_mono time (index + 1) (time_gap time c) _ xs (
      subst
        (λ y.
          AtMost
            (if not x.is_channel && improves (time_gap time x) best
              then some (index, time_gap time x)
              else best)
            (time_gap time y))
        same (better-AtMost time index best x (ground arith)))
nearest_from-least time index (suc j) best (x ∷ xs) c e h =
    nearest_from-least time (index + 1) j _ xs c e h

-- The best cell is the one that the loop began with, or a later one at its distance.
nearest_from-IsAt :
    (time index i d : ℕ) (best : Option (ℕ × ℕ)) (cells : List GridCell)
    → nearest_from time index best cells ≡ some (i, d)
    → (best ≡ some (i, d)) ⊎ ((j : ℕ) × (i ≡ index + j) × IsAt time cells j d)
unfolding nearest_from
nearest_from-IsAt time index i d best [] e = inl e
nearest_from-IsAt time index i d best (x ∷ xs) e =
    elim (nearest_from-IsAt time (index + 1) i d _ xs e) [
      | inl h ↦ elim (Bool-cases (not x.is_channel && improves (time_gap time x) best)) [
        | inl t ↦ inr (0, ground arith, (x, refl, ground arith, ground arith))
        | inr t ↦ inl (rw t at h)
      ]
      | inr (j, eq, at_j) ↦ inr (suc j, omega arith, at_j)
    ]

-- In a row that has a cell for a time, the index found is that of such a cell, and no other such
-- cell is nearer to the time.
pub guide_cell_index_at_time_nearest :
    (cells : List GridCell) (time j : ℕ) (c : GridCell)
    → get_elem? cells j ≡ some c
    → c.is_channel ≡ false
    → (cell : GridCell) × (get_elem? cells (guide_cell_index_at_time cells time) ≡ some cell)
      × (cell.is_channel ≡ false)
      × ((k : ℕ) (other : GridCell)
          → get_elem? cells k ≡ some other
          → other.is_channel ≡ false
          → time_gap time cell ≤ time_gap time other)
unfolding guide_cell_index_at_time
guide_cell_index_at_time_nearest cells time j c e h =
    elim (Option-cases (nearest_from time 0 none cells)) [
      | inl none_e ↦ absurd (rw none_e at (nearest_from-least time 0 j none cells c e h))
      | inr ((i, d), some_e) ↦ elim (nearest_from-IsAt time 0 i d none cells some_e) [
        | inl bad ↦ absurd (cc)
        | inr (k, eq, (cell, at_k, no_channel, dist)) ↦
            rw (some_e, guide_cell_index_at_time)
              (
                cell,
                subst (λ n. get_elem? cells n ≡ some cell) (omega arith) at_k,
                no_channel,
                λ m other at_m other_ok.
                    rw dist
                      (rw some_e at (nearest_from-least time 0 m none cells other at_m other_ok)),
              )
      ]
    ]
