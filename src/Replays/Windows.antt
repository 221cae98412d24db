-- ===== src/Replays/Windows.antt =====
-- `catalogWindows`: the ranges of days in which the catalog is searched for the events. Times are
-- Unix seconds from 1970 on; an earlier time counts as 0.
use silo_plugin_dispatcharr.Base.{
  ℕ, ◌+◌, ◌-◌, ◌*◌, ◌≤◌, ◌<◌, max, ◌⊎◌, Bool, ◌&&◌, List, [], ◌∷◌, map, ltb, leb, nat_beq,
  if◌then◌else◌, filter, take_last, All, string_eq, nat_eq, sort_by,
}

pub record Window : Type 0 where
  pub start : ℕ
  pub stop : ℕ

-- The options, whole and not negative, each 0 when it is missing.
pub record WindowOptions : Type 0 where
  pub now_unix : ℕ
  pub replay_lookback_days : ℕ
  pub replay_future_hours : ℕ
  pub max_date_days : ℕ
  pub max_catalog_windows : ℕ

abbrev pub or_default : ℕ → ℕ → ℕ
or_default x fallback = if nat_beq x 0 then fallback else x

-- The times of the events that are searched for.
unfoldable pub is_searched : WindowOptions → ℕ → Bool
is_searched o unix =
    leb (o.now_unix - max 1 (or_default o.replay_lookback_days 45) * 86400) unix
    && leb unix (o.now_unix + max 0 (or_default o.replay_future_hours 12) * 3600)

abbrev pub padding : WindowOptions → ℕ
padding o = max 0 (or_default o.max_date_days 7) * 86400

abbrev pub window_of : ℕ → ℕ → Window
window_of pad unix = record { start = unix - pad; stop = unix + pad }

-- The loop over the windows behind the first one, with the window that was merged last.
unfoldable pub merge_from : Window → List Window → List Window
merge_from previous [] = previous ∷ []
merge_from previous (window ∷ rest) =
    let near = leb window.start (previous.stop + 86400) in
    let wider : Window = record { start = previous.start; stop = max previous.stop window.stop } in
    let more = merge_from (if near then wider else window) rest in
    if near then more else previous ∷ more

unfoldable pub merge_windows : List Window → List Window
unfolding merge_from
merge_windows [] = []
merge_windows (window ∷ rest) = merge_from window rest

-- The windows around the times, before they are merged.
unfoldable pub event_windows : WindowOptions → List ℕ → List Window
unfolding is_searched
event_windows o dates = map (window_of (padding o)) (sort_by ltb (filter (is_searched o) dates))

-- `nowUnix` is given, and the windows are not yet printed as days.
unfoldable pub catalog_windows : WindowOptions → List ℕ → List Window
unfolding event_windows merge_windows
catalog_windows o dates =
    take_last (max 1 (or_default o.max_catalog_windows 4)) (merge_windows (event_windows o dates))

-- More than a day lies between one window and every later one.
abbrev pub IsApart : List Window → Type 0
IsApart [] = Unit
IsApart (w ∷ ws) = All (λ v. w.stop + 86400 < v.start) ws × IsApart ws

-- By their starts, none of them empty.
abbrev pub IsRising : ℕ → List Window → Type 0
IsRising from [] = Unit
IsRising from (w ∷ ws) = (from ≤ w.start) × (w.start ≤ w.stop) × IsRising w.start ws

abbrev pub Behind : ℕ → Window → Type 0
Behind from v = from ≤ v.start

-- A window lies in one of the others.
abbrev pub IsCovered : Window → List Window → Type 0
IsCovered w [] = ⊥
IsCovered w (v ∷ vs) = ((v.start ≤ w.start) × (w.stop ≤ v.stop)) ⊎ IsCovered w vs
